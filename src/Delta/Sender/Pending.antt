-- ===== src/Delta/Sender/Pending.antt =====
-- cdc_rsync/base/cdc_interface.cc: what the requests of `PatchSender` stand for between two chunks.
use cdc_file_transfer.Prelude.{
  ℕ, ◌+◌, ◌*◌, ◌^◌, ◌≤◌, ◌<◌, ◌≡◌, refl, ap, ◌∙◌, Bool, true, List, [], ◌∷◌, ◌++◌, length, take,
  drop, arith, length-append, length-drop, ◌==◌, some, take-append_le, drop-append_le, drop-drop,
  take-add, drop-length-append,
}
use cdc_file_transfer.Prelude.Words.{add32, add32_exact}
use cdc_file_transfer.Delta.{
  Source, source_data, source_basis_file, PatchRequest, patch_request_size_threshold,
}
use cdc_file_transfer.Delta.Patch.Replay.{
  Command, sources, sizes, request_of, origin, slice, output, Fits, Pays,
}
use cdc_file_transfer.Delta.Sender.{
  Sender, new_sender, get_last, set_last, is_data, extend_last, continues,
}

pub get_last-snoc {ℓ} : {A : Type ℓ} (xs : List A) (x : A) → get_last (xs ++ x ∷ []) ≡ some x
unfolding get_last
get_last-snoc [] x = refl
get_last-snoc (y ∷ []) x = refl
get_last-snoc (y ∷ z ∷ xs) x = get_last-snoc (z ∷ xs) x

set_last-snoc {ℓ} :
    {A : Type ℓ} (v : A) (xs : List A) (x : A) → set_last v (xs ++ x ∷ []) ≡ xs ++ v ∷ []
unfolding set_last
set_last-snoc v [] x = refl
set_last-snoc v (y ∷ []) x = refl
set_last-snoc v (y ∷ z ∷ xs) x = ap (◌∷◌ y) (set_last-snoc v (z ∷ xs) x)

-- A command that grows by `size` bytes.
abbrev pub grown : Command → ℕ → Command
grown c size = record c { size = c.size + size }

pub extend_last-request_of :
    (c : Command) (cs : List Command) (payload : List ℕ) (size : ℕ)
    → c.size + size < 2 ^ 32
    → extend_last size (request_of (c ∷ cs) payload) ≡ request_of (grown c size ∷ cs) payload
unfolding extend_last
extend_last-request_of c cs payload size h =
    rw (get_last-snoc (sizes cs) c.size)
      (rw (set_last-snoc (add32 c.size size) (sizes cs) c.size) (rw (add32_exact c.size size h)))

pub slice-add :
    (bytes : List ℕ) (offset m n : ℕ)
    → slice bytes offset (m + n) ≡ slice bytes offset m ++ slice bytes (offset + m) n
slice-add bytes offset m n = take-add m n (drop offset bytes) ∙ rw (drop-drop offset m bytes)

slice-append :
    (a b : List ℕ) (offset size : ℕ)
    → offset + size ≤ length a
    → slice (a ++ b) offset size ≡ slice a offset size
slice-append a b offset size h =
    rw (drop-append_le offset a b (omega arith))
      (take-append_le size (drop offset a) b (omega (arith, length-drop offset a)))

take_all : (a : List ℕ) → take (length a) a ≡ a
take_all [] = refl
take_all (x ∷ a) = ap (◌∷◌ x) (take_all a)

-- The last bytes are those that came last.
pub slice_end : (a b : List ℕ) → slice (a ++ b) (length a) (length b) ≡ b
slice_end a b = rw (drop-length-append a b) (take_all b)

pub has_size : (bytes : List ℕ) (size : ℕ) → length bytes ≡ size → (length bytes == size) ≡ true
has_size bytes size h = ground arith

-- Bytes that come to the end of the payload leave the commands before as they are.
pub output-append :
    (basis payload more : List ℕ) (cs : List Command)
    → Fits basis payload cs
    → (output basis (payload ++ more) cs ≡ output basis payload cs)
      × Fits basis (payload ++ more) cs
output-append basis payload more [] f = (refl, tt)
output-append basis payload more (c ∷ cs) f =
    let (same, fits) = output-append basis payload more cs f.1 in
    let (s, t) = go c.source f.0 in (rw (same, s), (t, fits))
  where
    go :
        (x : Source)
        → c.offset + c.size ≤ length (origin basis payload x)
        → (slice (origin basis (payload ++ more) x) c.offset c.size
            ≡ slice (origin basis payload x) c.offset c.size)
          × (c.offset + c.size ≤ length (origin basis (payload ++ more) x))
    go source_basis_file h = (refl, h)
    go source_data h =
        (slice-append payload more c.offset c.size h, omega (arith, length-append payload more))

-- What the newest command says of the payload: there is none without a command, and one that copies
-- from it ends where it ends.
abbrev pub Ends : List ℕ → List Command → Type 0
Ends payload [] = payload ≡ []
Ends payload (c ∷ cs) = c.source ≡ source_data → c.offset + c.size ≡ length payload

-- The requests sent and the request at hand stand for the bytes `out`.
pub record Pending (basis : List ℕ) (p : Sender) (out : List ℕ) : Type 0 where
  pub commands : List Command
  pub payload : List ℕ
  pub done : List ℕ
  pub shape : p.request ≡ request_of commands payload
  pub fits : Fits basis payload commands
  pub ends : Ends payload commands
  pub paid : Pays basis p.sent done
  pub total : done ++ output basis payload commands ≡ out
  pub metered : p.request_size ≡ 13 * length commands + length payload

pub record IsReady (basis : List ℕ) (p : Sender) (out : List ℕ) : Type 0 where
  pub pending : Pending basis p out
  pub room : p.request_size ≤ patch_request_size_threshold
  pub position : p.file_offset ≡ length out

-- Before anything is sent.
pub new_sender-IsReady : (basis : List ℕ) → IsReady basis new_sender []
new_sender-IsReady basis = record {
  pending = record {
    commands = [];
    payload = [];
    done = [];
    shape = refl;
    fits = tt;
    ends = refl;
    paid = refl;
    total = refl;
    metered = omega arith;
  };
  room = omega arith;
  position = refl;
}

pub within :
    (basis payload : List ℕ) (s : Source) (n : ℕ)
    → s ≡ source_basis_file
    → n ≤ length (origin basis payload s)
    → n ≤ length basis
within basis payload source_basis_file n e h = h
within basis payload source_data n e h = cc

pub sources_differ : source_basis_file ≡ source_data → ⊥
sources_differ e = cc

pub no_data : is_data (get_last (sources [])) ≡ true → ⊥
unfolding get_last
no_data h = cc

pub data_Command :
    (c : Command) (cs : List Command)
    → is_data (get_last (sources (c ∷ cs))) ≡ true
    → c.source ≡ source_data
data_Command c cs h = ground (arith, get_last-snoc (sources cs) c.source)

pub no_continues :
    (offset : ℕ) (payload : List ℕ) → continues offset (request_of [] payload) ≡ true → ⊥
unfolding continues get_last
no_continues offset payload h = cc

-- The pump takes every request.
abbrev pub Accepts : (List PatchRequest → PatchRequest → Bool) → Type 0
Accepts accept = (sent : List PatchRequest) (r : PatchRequest) → accept sent r ≡ true
