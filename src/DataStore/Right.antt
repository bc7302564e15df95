-- ===== src/DataStore/Right.antt =====
-- data_store/data_store_reader.h, data_store/data_store_writer.h: what the stores promise of the data
-- that they return.
use cdc_file_transfer.Prelude.{
  ℕ, ◌≡◌, ◌≢◌, ◌⊎◌, inl, inr, refl, ap, subst, ◌∙◌, true, ◌||◌, List, [], ◌∷◌, if◌then◌else◌,
  Option, some, length, take, drop, ◌==◌, ==_iff, Bool-cases, map, All,
}
use cdc_file_transfer.Prelude.Status.{Result, ok, err, ok-injective, err≢ok, ◌>>=◌}
use cdc_file_transfer.DataStore.{
  ChunkTask, Reader, Writer, take_answer, default_get_list, is_not_found,
}

-- What a writer has to keep: parts are parts of what is there, and nothing comes in but by `Put`.
pub record IsLawful {S : Type 0} (w : Writer S) : Type 0 where
  pub range_lem :
      (id : List ℕ) (offset size : ℕ) (s : S) (b : List ℕ)
      → w.get_range id offset size s ≡ ok b
      → (a : List ℕ) × (w.get_all id s ≡ ok a) × (b ≡ take size (drop offset a))
  pub put_lem :
      (i j d : List ℕ) (s : S) (b : List ℕ)
      → w.get_all j (w.put i d s).0 ≡ ok b
      → ((i ≡ j) × (d ≡ b)) ⊎ (w.get_all j s ≡ ok b)
  pub remove_lem :
      (i j : List ℕ) (s : S) (b : List ℕ)
      → w.get_all j (w.remove i s).0 ≡ ok b
      → w.get_all j s ≡ ok b

-- What a task asks for.
abbrev pub request : ChunkTask → List ℕ × ℕ × ℕ
request t = (t.id, t.offset, t.size)

-- `content` is the data that an id names.
module _ (content : List ℕ → Option (List ℕ)) where
  -- All data of a store are right.
  abbrev pub Holds : {S : Type 0} → Writer S → S → Type 0
  Holds w s = (id b : List ℕ) → w.get_all id s ≡ ok b → content id ≡ some b

  -- A task that is done has what was asked for, and complete data are right.
  abbrev pub IsRight : ChunkTask → Type 0
  IsRight t =
      (t.done ≡ true
        → t.size ≢ 0
        → (b : List ℕ) × (content t.id ≡ some b)
          × (t.copied ≡ take t.size (drop t.offset b))
          × (length t.copied ≡ t.size))
      × ((t.chunk_data ≡ []) ⊎ (content t.id ≡ some t.chunk_data))

  -- Right answers to the same requests.
  abbrev pub IsRightList : List ChunkTask → List ChunkTask → Type 0
  IsRightList tasks tasks' = All IsRight tasks' × (map request tasks' ≡ map request tasks)

  -- What a reader has to keep.
  pub record IsReader (r : Reader) : Type 0 where
    pub get_right : (id b : List ℕ) → r.get id ≡ ok b → content id ≡ some b
    pub get_list_right :
        (tasks tasks' : List ChunkTask)
        → r.get_list tasks ≡ ok tasks'
        → All IsRight tasks
        → IsRightList tasks tasks'

  take_answer-IsRight :
      (t t' : ChunkTask) (answer : Result (List ℕ))
      → ((x : List ℕ)
          → answer ≡ ok x
          → (b : List ℕ) × (content t.id ≡ some b) × (x ≡ take t.size (drop t.offset b)))
      → take_answer t answer ≡ ok t'
      → IsRight t
      → IsRight t' × (request t' ≡ request t)
  unfolding take_answer
  take_answer-IsRight t t' (ok x) v e (h, k) = elim (Bool-cases (length x == t.size)) [
    | inl f ↦
        subst (λ y. IsRight y × (request y ≡ request t))
          (ok-injective _ t' (rw (take_answer, f) at e))
          (let (b, g, j) = v x refl in
            (((λ d n. (b, g, j, (==_iff (length x) t.size).0 f)), k), refl))
    | inr f ↦ absurd (err≢ok (rw (take_answer, f) at e))
  ]
  take_answer-IsRight t t' (err code) v e h = elim (Bool-cases (is_not_found code)) [
    | inl f ↦
        subst (λ y. IsRight y × (request y ≡ request t))
          (ok-injective t t' (rw (take_answer, f) at e)) (h, refl)
    | inr f ↦ absurd (err≢ok (rw (take_answer, f) at e))
  ]

  -- One task, then the others.
  pub cons_tasks :
      (m : Result ChunkTask) (n : Result (List ChunkTask)) (t : ChunkTask)
      (tasks tasks' : List ChunkTask)
      → ((t' : ChunkTask) → m ≡ ok t' → IsRight t' × (request t' ≡ request t))
      → ((ts : List ChunkTask) → n ≡ ok ts → IsRightList tasks ts)
      → (m >>= λ t'. n >>= λ ts. ok (t' ∷ ts)) ≡ ok tasks'
      → IsRightList (t ∷ tasks) tasks'
  cons_tasks (ok t') (ok ts) t tasks tasks' f g e =
      let (a, b) = f t' refl in
      let (c, d) = g ts refl in
      subst (IsRightList (t ∷ tasks)) (ok-injective (t' ∷ ts) tasks' e)
        ((a, c), ap (λ x. x ∷ map request ts) b ∙ ap (◌∷◌ (request t)) d)
  cons_tasks (ok t') (err c) t tasks tasks' f g e = absurd (err≢ok e)
  cons_tasks (err c) n t tasks tasks' f g e = absurd (err≢ok e)

  -- The default list read keeps what is asked of a reader, on reads of parts that do.
  pub default_get_list_lem :
      (get_range : List ℕ → ℕ → ℕ → Result (List ℕ)) (tasks tasks' : List ChunkTask)
      → ((id : List ℕ) (offset size : ℕ) (x : List ℕ)
          → get_range id offset size ≡ ok x
          → (b : List ℕ) × (content id ≡ some b) × (x ≡ take size (drop offset b)))
      → default_get_list get_range tasks ≡ ok tasks'
      → All IsRight tasks
      → IsRightList tasks tasks'
  unfolding default_get_list
  default_get_list_lem get_range [] tasks' v e a =
      subst (IsRightList []) (ok-injective [] tasks' e) (tt, refl)
  default_get_list_lem get_range (t ∷ tasks) tasks' v e (h, a) =
      cons_tasks _ _ t tasks tasks' (λ t' f. first get_range t t' v h f)
        (λ ts f. default_get_list_lem get_range tasks ts v f a) e
    where
      first :
          (get_range : List ℕ → ℕ → ℕ → Result (List ℕ)) (t t' : ChunkTask)
          → ((id : List ℕ) (offset size : ℕ) (x : List ℕ)
              → get_range id offset size ≡ ok x
              → (b : List ℕ) × (content id ≡ some b) × (x ≡ take size (drop offset b)))
          → IsRight t
          → (if t.done || (t.size == 0)
              then ok t
              else take_answer t (get_range t.id t.offset t.size))
            ≡ ok t'
          → IsRight t' × (request t' ≡ request t)
      first get_range t t' v h f = elim (Bool-cases (t.done || (t.size == 0))) [
        | inl g ↦
            subst (λ y. IsRight y × (request y ≡ request t)) (ok-injective t t' (rw g at f))
              (h, refl)
        | inr g ↦ take_answer-IsRight t t' _ (v t.id t.offset t.size) (rw g at f) h
      ]
