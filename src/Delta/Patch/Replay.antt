-- ===== src/Delta/Patch/Replay.antt =====
-- cdc_rsync/base/cdc_interface.cc: the bytes that a request stands for, and that
-- `ReceiveDiffAndPatch` writes them.
use cdc_file_transfer.Prelude.{
  ℕ, ◌+◌, ◌^◌, ◌≤◌, ◌<◌, ◌≡◌, refl, sym, ◌∙◌, Bool, true, false, List, [], ◌∷◌, ◌++◌, length, take,
  drop, arith, append-nil, append_assoc, length-append, length-take, length-drop, ◌==◌,
}
use cdc_file_transfer.Prelude.Status.{ok, ◌>>=◌, >>=-push_two}
use cdc_file_transfer.Prelude.Words.{add64_exact}
use cdc_file_transfer.Delta.{Source, source_data, source_basis_file, PatchRequest, empty_request}
use cdc_file_transfer.Delta.Patch.{
  Patched, new_patched, command_bytes, note_first, write, run_commands, receive_diff,
  receive_diff_and_patch,
}

-- An entry of the three arrays.
pub record Command : Type 0 where
  pub source : Source
  pub offset : ℕ
  pub size : ℕ

-- A request from its commands, the newest first.
abbrev pub sources : List Command → List Source
sources [] = []
sources (c ∷ cs) = sources cs ++ c.source ∷ []

abbrev pub offsets : List Command → List ℕ
offsets [] = []
offsets (c ∷ cs) = offsets cs ++ c.offset ∷ []

abbrev pub sizes : List Command → List ℕ
sizes [] = []
sizes (c ∷ cs) = sizes cs ++ c.size ∷ []

abbrev pub request_of : List Command → List ℕ → PatchRequest
request_of cs payload = record {
  sources = sources cs;
  offsets = offsets cs;
  sizes = sizes cs;
  payload = payload;
}

-- Where the bytes of a command come from.
abbrev pub origin : List ℕ → List ℕ → Source → List ℕ
origin basis payload source_basis_file = basis
origin basis payload source_data = payload

abbrev pub slice : List ℕ → ℕ → ℕ → List ℕ
slice bytes offset size = take size (drop offset bytes)

-- The bytes that commands stand for.
abbrev pub output : List ℕ → List ℕ → List Command → List ℕ
output basis payload [] = []
output basis payload (c ∷ cs) =
    output basis payload cs ++ slice (origin basis payload c.source) c.offset c.size

-- Each command lies within its source.
abbrev pub Fits : List ℕ → List ℕ → List Command → Type 0
Fits basis payload [] = Unit {0}
Fits basis payload (c ∷ cs) =
    (c.offset + c.size ≤ length (origin basis payload c.source)) × Fits basis payload cs

-- The requests stand for these bytes: none is empty, and all commands fit.
abbrev pub Pays : List ℕ → List PatchRequest → List ℕ → Type 0
Pays basis [] bytes = bytes ≡ []
Pays basis (r ∷ rs) bytes =
    (c : Command) × (cs : List Command) × (payload rest : List ℕ) × (r
      ≡ request_of (c ∷ cs) payload)
    × Fits basis payload (c ∷ cs)
    × (length payload < 2 ^ 64)
    × (bytes ≡ output basis payload (c ∷ cs) ++ rest)
    × Pays basis rs rest

pub Pays-snoc :
    (basis : List ℕ) (rs : List PatchRequest) (bytes : List ℕ) (c : Command) (cs : List Command)
    (payload : List ℕ)
    → Pays basis rs bytes
    → Fits basis payload (c ∷ cs)
    → length payload < 2 ^ 64
    → Pays basis (rs ++ request_of (c ∷ cs) payload ∷ []) (bytes ++ output basis payload (c ∷ cs))
Pays-snoc basis [] bytes c cs payload p f h =
    (c, cs, payload, [], refl, f, h, rw p (sym (append-nil _)), refl)
Pays-snoc basis (r ∷ rs) bytes c cs payload p f h =
    let (c', cs', payload', rest, e, f', h', eb, p') = p in
    (
      c',
      cs',
      payload',
      rest ++ output basis payload (c ∷ cs),
      e,
      f',
      h',
      rw eb (append_assoc (output basis payload' (c' ∷ cs')) rest (output basis payload (c ∷ cs))),
      Pays-snoc basis rs rest c cs payload p' f h,
    )

length-slice :
    (bytes : List ℕ) (offset size : ℕ)
    → offset + size ≤ length bytes
    → length (slice bytes offset size) ≡ size
length-slice bytes offset size h =
    omega (arith, length-take size (drop offset bytes), length-drop offset bytes)

command_bytes-slice :
    (basis payload : List ℕ) (c : Command)
    → c.offset + c.size ≤ length (origin basis payload c.source)
    → length payload < 2 ^ 64
    → command_bytes basis payload c.source c.offset c.size
      ≡ ok (slice (origin basis payload c.source) c.offset c.size)
command_bytes-slice basis payload c h k = go c.source h
  where
    go :
        (s : Source)
        → c.offset + c.size ≤ length (origin basis payload s)
        → command_bytes basis payload s c.offset c.size
          ≡ ok (slice (origin basis payload s) c.offset c.size)
    go source_basis_file h =
        unfold command_bytes in ground (arith, length-slice basis c.offset c.size h)
    go source_data h =
        unfold command_bytes in
        ground (arith, add64_exact c.offset c.size, length-slice payload c.offset c.size h)

-- `fwrite` always succeeds.
abbrev pub Writes : (List ℕ → List ℕ → Bool) → Type 0
Writes can_write = (a b : List ℕ) → can_write a b ≡ true

module _ (can_write : List ℕ → List ℕ → Bool) (writes : Writes can_write) (basis : List ℕ) where
  note_first-content : (bytes : List ℕ) (s : Patched) → (note_first bytes s).content ≡ s.content
  unfolding note_first
  note_first-content bytes s = ground arith

  write-content :
      (bytes : List ℕ) (s : Patched)
      → (s' : Patched) × (write can_write basis bytes (note_first bytes s) ≡ ok s')
        × (s'.content ≡ s.content ++ bytes)
  unfolding write
  write-content bytes s =
      let n = note_first bytes s in
      (
        record n { content = n.content ++ bytes },
        rw (writes n.content bytes),
        rw (note_first-content bytes s),
      )

  -- The loop over one more command, at the end of the arrays.
  run_commands-snoc :
      (payload : List ℕ) (xs : List Source) (ys zs : List ℕ) (x : Source) (y z : ℕ) (s : Patched)
      → length xs ≡ length ys
      → length xs ≡ length zs
      → run_commands can_write basis payload (xs ++ x ∷ []) (ys ++ y ∷ []) (zs ++ z ∷ []) s ≡ (
          run_commands can_write basis payload xs ys zs s >>= λ t.
          run_commands can_write basis payload (x ∷ []) (y ∷ []) (z ∷ []) t)
  unfolding run_commands
  run_commands-snoc payload [] [] [] x y z s h k = refl
  run_commands-snoc payload (x' ∷ xs) (y' ∷ ys) (z' ∷ zs) x y z s h k =
      >>=-push_two (command_bytes basis payload x' y' z')
        (λ bytes. write can_write basis bytes (note_first bytes s)) _ _ _
        (λ t. run_commands-snoc payload xs ys zs x y z t (omega arith) (omega arith))
  run_commands-snoc payload _ _ _ x y z s h k = absurd (omega arith)

  lengths :
      (cs : List Command)
      → (length (sources cs) ≡ length (offsets cs))
        × (length (sources cs) ≡ length (sizes cs))
        × (length (sources cs) ≡ length cs)
  lengths [] = (refl, refl, refl)
  lengths (c ∷ cs) = omega (
    arith,
    lengths cs,
    length-append (sources cs) (c.source ∷ []),
    length-append (offsets cs) (c.offset ∷ []),
    length-append (sizes cs) (c.size ∷ []),
  )

  run_commands-output :
      (payload : List ℕ) (cs : List Command) (s : Patched)
      → length payload < 2 ^ 64
      → Fits basis payload cs
      → (s' : Patched) × (run_commands can_write basis payload
            (sources cs)
            (offsets cs)
            (sizes cs)
            s
          ≡ ok s')
        × (s'.content ≡ s.content ++ output basis payload cs)
  unfolding run_commands
  run_commands-output payload [] s h f = (s, refl, sym (append-nil s.content))
  run_commands-output payload (c ∷ cs) s h f =
      let (s1, e1, c1) = run_commands-output payload cs s h f.1 in
      let (s2, e2, c2) = write-content (slice (origin basis payload c.source) c.offset c.size) s1 in
      (
        s2,
        rw
            (run_commands-snoc payload (sources cs) (offsets cs) (sizes cs) c.source c.offset c.size
              s (lengths cs).0 (lengths cs).1)
            (rw e1 (rw (command_bytes-slice basis payload c f.0 h) (rw e2))),
        c2 ∙ rw c1 (append_assoc s.content _ _),
      )

  receive_diff-Pays :
      (rs : List PatchRequest) (bytes : List ℕ) (s : Patched)
      → Pays basis rs bytes
      → (s' : Patched) × (receive_diff can_write basis (rs ++ empty_request ∷ []) s ≡ ok s')
        × (s'.content ≡ s.content ++ bytes)
  unfolding receive_diff
  receive_diff-Pays [] bytes s p = (s, refl, rw p (sym (append-nil s.content)))
  receive_diff-Pays (r ∷ rs) bytes s p =
      let (c, cs, payload, rest, e, f, h, eb, p') = p in
      let (s1, e1, c1) = run_commands-output payload (c ∷ cs) s h f in
      let (s2, e2, c2) = receive_diff-Pays rs rest s1 p' in
      let l = lengths (c ∷ cs) in
      let t1 : (length (sources (c ∷ cs)) == length (offsets (c ∷ cs))) ≡ true =
        ground (arith, l) in
      let t2 : (length (sources (c ∷ cs)) == length (sizes (c ∷ cs))) ≡ true = ground (arith, l) in
      let t3 : (length (sources (c ∷ cs)) == 0) ≡ false = ground (arith, l) in
      (s2, rw e (rw t1 (rw t2 (rw t3 (rw e1 e2)))), c2 ∙ rw (c1, eb) (append_assoc s.content _ _))

-- From requests that stand for some bytes and an empty one behind them, ReceiveDiffAndPatch writes
-- these bytes and succeeds, if no write fails.
pub receive_diff_and_patch-content :
    (can_write : List ℕ → List ℕ → Bool)
    → Writes can_write
    → (basis : List ℕ) (rs : List PatchRequest) (bytes : List ℕ) → Pays basis rs bytes
    → (s : Patched) × (receive_diff_and_patch can_write basis (rs ++ empty_request ∷ []) ≡ ok s)
      × (s.content ≡ bytes)
unfolding receive_diff_and_patch
receive_diff_and_patch-content can_write writes basis rs bytes p =
    receive_diff-Pays can_write writes basis rs bytes new_patched p
