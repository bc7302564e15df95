-- ===== src/FuseAsset/Read/Buffer.antt =====
-- cdc_fuse_fs/asset.cc: what the tasks of `Asset::Read` bring into the buffer.
use mathlib.Core.Bool.{false≢true}
use mathlib.Core.Option.{some-injective}
use cdc_file_transfer.Prelude.{
  ℕ, ◌-◌, ◌≡◌, ◌⊎◌, inl, inr, refl, sym, ap, ◌∙◌, true, false, not, ◌&&◌, List, [], ◌∷◌, ◌++◌, map,
  Option, some, take, drop, flatten, ◌==◌, ==_iff, Bool-cases, All,
}
use cdc_file_transfer.Prelude.Status.{Code, Result, ok, err, data_loss, Result-cases}
use cdc_file_transfer.DataStore.{ChunkTask, read_done}
use cdc_file_transfer.DataStore.Right.{IsRight, IsRightList, request}
use cdc_file_transfer.FuseAsset.Read.{Reading, into_buffer, transfer}
use cdc_file_transfer.FuseAsset.Read.Loop.{IsNew, slice, slices}

-- A slice of a request
abbrev slice_of : (List ℕ → List ℕ) → List ℕ × ℕ × ℕ → List ℕ
slice_of chunk_of (id, offset, size) = take size (drop offset (chunk_of id))

slices_of :
    (chunk_of : List ℕ → List ℕ) (tasks : List ChunkTask)
    → slices chunk_of tasks ≡ flatten (map (slice_of chunk_of) (map request tasks))
slices_of chunk_of [] = refl
slices_of chunk_of (t ∷ tasks) = ap (λ x. slice chunk_of t ++ x) (slices_of chunk_of tasks)

module _ (chunk_of : List ℕ → List ℕ) where
  -- The data that the ids name
  abbrev pub content : List ℕ → Option (List ℕ)
  content id = some (chunk_of id)

  not_done :
      (t : ChunkTask) (tasks : List ChunkTask)
      → (t.size == 0) ≡ false
      → read_done (t ∷ tasks) ≡ true
      → t.done ≡ true
  unfolding read_done
  not_done t tasks z e = elim (Bool-cases t.done) [
    | inl d ↦ d
    | inr d ↦ absurd (false≢true (simp (read_done, z, d) at e))
  ]

  others_done :
      (t : ChunkTask) (tasks : List ChunkTask)
      → read_done (t ∷ tasks) ≡ true
      → read_done tasks ≡ true
  unfolding read_done
  others_done t tasks e = elim (Bool-cases (not (t.size == 0) && not t.done)) [
    | inl d ↦ absurd (false≢true (simp (read_done, d) at e))
    | inr d ↦ simp (read_done, d) at e
  ]

  into_buffer-slice :
      (t : ChunkTask) (tasks : List ChunkTask)
      → read_done (t ∷ tasks) ≡ true
      → IsRight content t
      → into_buffer t ≡ slice chunk_of t
  unfolding into_buffer
  into_buffer-slice t tasks e (r, k) = elim (Bool-cases (t.size == 0)) [
    | inl z ↦
        rw (into_buffer, z)
          (ap (λ n. take n (drop t.offset (chunk_of t.id))) (sym ((==_iff t.size 0).0 z)))
    | inr z ↦
        let (b, f, g, l) =
          r (not_done t tasks z e) (λ y. false≢true (sym z ∙ (==_iff t.size 0).1 y)) in
        rw (into_buffer, z)
          (g ∙ ap (λ x. take t.size (drop t.offset x)) (sym (some-injective (chunk_of t.id) b f)))
  ]

  -- All tasks together
  into_buffer-slices :
      (tasks : List ChunkTask)
      → read_done tasks ≡ true
      → All (IsRight content) tasks
      → flatten (map into_buffer tasks) ≡ slices chunk_of tasks
  into_buffer-slices [] e a = refl
  into_buffer-slices (t ∷ tasks) e (r, a) =
      ap (λ x. x ++ flatten (map into_buffer tasks)) (into_buffer-slice t tasks e r)
      ∙ ap (λ x. slice chunk_of t ++ x) (into_buffer-slices tasks (others_done t tasks e) a)

  new-IsRight : (tasks : List ChunkTask) → All IsNew tasks → All (IsRight content) tasks
  new-IsRight [] h = tt
  new-IsRight (t ∷ tasks) ((d, c), h) =
      (((λ e n. absurd (false≢true (sym d ∙ e))), inl c), new-IsRight tasks h)

  -- The data store fails on the tasks, or does not finish them.
  abbrev pub Fails : (List ChunkTask → Result (List ChunkTask)) → Code → List ChunkTask → Type 0
  Fails get_tasks code tasks =
      (get_tasks tasks ≡ err code)
      ⊎ ((tasks' : List ChunkTask) × (get_tasks tasks ≡ ok tasks')
          × (read_done tasks' ≡ false)
          × (code ≡ data_loss))

  -- A store that answers rightly brings the slices into the buffer, or fails.
  pub transfer_lem :
      (get_tasks : List ChunkTask → Result (List ChunkTask)) (size : ℕ) (r : Reading)
      → ((tasks tasks' : List ChunkTask)
          → get_tasks tasks ≡ ok tasks'
          → All (IsRight content) tasks
          → IsRightList content tasks tasks')
      → All IsNew r.chunks
      → ((code : Code) × (transfer get_tasks size r ≡ err code) × Fails get_tasks code r.chunks)
        ⊎ (transfer get_tasks size r ≡ ok (slices chunk_of r.chunks, size - r.data_bytes_left))
  unfolding transfer
  transfer_lem get_tasks size r right h = elim (Result-cases (get_tasks r.chunks)) [
    | inr (code, e) ↦ inl (code, rw (transfer, e) refl, inl e)
    | inl (tasks, e) ↦ elim (Bool-cases (read_done tasks)) [
      | inr d ↦ inl (data_loss, rw (transfer, e) (rw d refl), inr (tasks, e, d, refl))
      | inl d ↦
          let (a, q) = right r.chunks tasks e (new-IsRight r.chunks h) in
          inr (
            rw (transfer, e)
              (rw d (
                ap (λ x. ok (x, size - r.data_bytes_left))
                  (into_buffer-slices tasks d a
                    ∙ (slices_of chunk_of tasks
                        ∙ (ap (λ x. flatten (map (slice_of chunk_of) x)) q
                            ∙ sym (slices_of chunk_of r.chunks)))))))
    ]
  ]
