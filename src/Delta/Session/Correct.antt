-- ===== src/Delta/Session/Correct.antt =====
-- cdc_rsync/base/cdc_interface.cc: what the client sends makes the client's file of the server's.
use cdc_file_transfer.Prelude.{
  ℕ, zero, suc, ◌+◌, ◌^◌, ◌≤◌, ◌<◌, ◌≡◌, refl, sym, ap, ◌∙◌, inl, inr, Bool, true, false, List, [],
  ◌∷◌, ◌++◌, map, length, drop, arith, append-nil, append_assoc, length-append, Bool-cases, some,
  flatten, flatten-append, All, length-map, subst,
}
use mathlib.Core.List.{map-append}
use mathlib.Core.Option.{some-injective}
use cdc_file_transfer.Delta.Sender.Chunks.{IsDistinct, IsAt, Advance, add_chunks-Advance}
use cdc_file_transfer.Delta.Receiver.Hashes.{IsHasher}
use cdc_file_transfer.Delta.Receiver.Index.{
  Entries, Signs, IsSound, new_receiver-IsSound, receive-IsSound,
}
use cdc_file_transfer.Delta.Sender.{add_chunks}
use cdc_file_transfer.Prelude.Status.{ok}
use cdc_file_transfer.Prelude.Words.{add64}
use cdc_file_transfer.Chunker.{Chunker, process, process_all, fresh}
use cdc_file_transfer.Chunker.Bounds.{IsValid}
use cdc_file_transfer.Chunker.Cuts.{Cuts, Sizes, flatten-Cuts, Cuts-Sizes}
use cdc_file_transfer.Chunker.Streaming.{Cuts-nil, process-next, process-last, process_once-Cuts}
use cdc_file_transfer.Delta.{PatchRequest, SignaturesResponse, client_chunk, max_chunk_size}
use cdc_file_transfer.Delta.Patch.{Patched, receive_diff_and_patch}
use cdc_file_transfer.Delta.Patch.Replay.{Writes, receive_diff_and_patch-content}
use cdc_file_transfer.Delta.Receiver.{Receiver, receive}
use cdc_file_transfer.Delta.Sender.{Sender, add_chunks, try_add_chunks}
use cdc_file_transfer.Delta.Sender.Pending.{IsReady, new_sender-IsReady, Accepts}
use cdc_file_transfer.Delta.Sender.Step.{flush-Pays}
use cdc_file_transfer.Delta.Session.{
  config, Session, new_session, chunk_block, exchange, unfinished, exchange_loop, on_block, rounds,
  on_eof, stream, create_and_send_diff,
}

All-append {ℓ κ} :
    {A : Type ℓ} (P : A → Type κ) (xs ys : List A) → All P (xs ++ ys) → All P xs × All P ys
All-append P [] ys h = (tt, h)
All-append P (x ∷ xs) ys h = let (a, b) = All-append P xs ys h.1 in ((h.0, a), b)

length-zero {ℓ} : {A : Type ℓ} (xs : List A) → length xs ≡ 0 → xs ≡ []
length-zero [] h = refl
length-zero (x ∷ xs) h = absurd (omega arith)

-- The client's chunks from the one on that is next.
drop-map {ℓ κ} :
    {A : Type ℓ} {B : Type κ} (f : A → B) (xs ys : List A)
    → drop (length xs) (map f (xs ++ ys)) ≡ map f ys
drop-map f [] ys = refl
drop-map f (x ∷ xs) ys = drop-map f xs ys

-- The bytes of the blocks that are read.
abbrev pub contents : List (List ℕ × Bool) → List ℕ
contents [] = []
contents ((block, arrived) ∷ blocks) = block ++ contents blocks

-- No block is empty: an empty one would stand for the end of the file.
abbrev pub NonEmpty : List (List ℕ × Bool) → Type 0
NonEmpty = All (λ b. 0 < length b.0)

config-IsValid : IsValid config
config-IsValid = record { positive = omega arith; min_avg = omega arith; avg_max = omega arith }

Sizes-small : (xs : List (List ℕ)) → Sizes config xs [] → All (λ d. length d ≤ max_chunk_size) xs
Sizes-small [] h = tt
Sizes-small (x ∷ xs) h = (h.1, Sizes-small xs h.3)

-- The chunks of some bytes are these bytes and small.
pub config-chunks :
    (w : ℕ) (gear : ℕ → ℕ)
    → 0 < w
    → (bytes : List ℕ) (chunks : List (List ℕ))
    → process_all w gear (fresh config) (bytes ∷ []) ≡ some chunks
    → Cuts w gear config true bytes chunks []
      × (flatten chunks ≡ bytes)
      × All (λ d. length d ≤ max_chunk_size) chunks
config-chunks w gear wide bytes chunks once =
    let (xs, e, cuts) = process_once-Cuts w gear config wide config-IsValid bytes in
    let cuts' : Cuts w gear config true bytes chunks [] =
      subst (λ cs. Cuts w gear config true bytes cs []) (some-injective xs chunks (sym e ∙ once))
        cuts in
    (
      cuts',
      sym (append-nil (flatten chunks)) ∙ flatten-Cuts w gear config true bytes chunks [] cuts',
      Sizes-small chunks (Cuts-Sizes w gear config wide config-IsValid true bytes chunks [] cuts'),
    )

module _ (w : ℕ) (gear : ℕ → ℕ) (wide : 0 < w) (blake3 : List ℕ → List ℕ) (hasher : IsHasher blake3)
    (accept : List PatchRequest → PatchRequest → Bool) (accepts : Accepts accept) (basis : List ℕ)
    (basis64 : length basis < 2 ^ 64) (server : List (List ℕ)) (file : List ℕ)
    (file64 : length file < 2 ^ 64) (client : List (List ℕ)) (whole : flatten client ≡ file)
    (small : All (λ d. length d ≤ max_chunk_size) client)
    (distinct : All (IsDistinct blake3 hasher server) client) where
  -- Between two blocks, before `rest` is read: the chunks known are sent or wait, and the data in the
  -- chunker and the rest are cut into the others.
  pub record IsGood (s : Session) (rest : List ℕ) : Type 0 where
    pub buffer : List ℕ
    pub sent : List (List ℕ)
    pub todo : List (List ℕ)
    pub future : List (List ℕ)
    pub chunker : s.chunker ≡ record { cfg = config; buffer = buffer }
    pub cuts : Cuts w gear config true (buffer ++ rest) future []
    pub parts : client ≡ (sent ++ todo) ++ future
    pub listed : s.client_chunks ≡ map (client_chunk blake3) (sent ++ todo)
    pub at : IsAt blake3 hasher server accept accepts basis basis64 file file64 s.sender sent
    pub sound : IsSound blake3 hasher basis server basis64 s.receiver

  chunk_block_lem :
      (block : List ℕ) (s : Session) (xs : List (List ℕ)) (c : Chunker)
      → process w gear s.chunker block ≡ some (xs, c)
      → chunk_block w gear blake3 accept file block s
        ≡ ok (record s {
          client_chunks = s.client_chunks ++ map (client_chunk blake3) xs;
          chunker = c;
          file_size = add64 s.file_size (length block);
        })
  unfolding chunk_block
  chunk_block_lem block s xs c e = rw (e, chunk_block) refl

  -- The chunks that a call of `Process` finds wait behind the others.
  found-IsGood :
      (block rest r : List ℕ) (s : Session) (xs ys : List (List ℕ)) (g : IsGood s (block ++ rest))
      → process w gear (record { cfg = config; buffer = g.buffer }) block
        ≡ some (xs, record { cfg = config; buffer = r })
      → g.future ≡ xs ++ ys
      → Cuts w gear config true (r ++ rest) ys []
      → (s' : Session) × (chunk_block w gear blake3 accept file block s ≡ ok s')
        × IsGood s' rest
        × (s'.receiver ≡ s.receiver)
  found-IsGood block rest r s xs ys g e split cuts' = (
    record s {
      client_chunks = s.client_chunks ++ map (client_chunk blake3) xs;
      chunker = record { cfg = config; buffer = r };
      file_size = add64 s.file_size (length block);
    },
    chunk_block_lem block s xs _ (ap (λ c. process w gear c block) g.chunker ∙ e),
    record {
      buffer = r;
      sent = g.sent;
      todo = g.todo ++ xs;
      future = ys;
      chunker = refl;
      cuts = cuts';
      parts =
          g.parts
          ∙ (ap (λ f. (g.sent ++ g.todo) ++ f) split
              ∙ (sym (append_assoc (g.sent ++ g.todo) xs ys)
                  ∙ ap (λ f. f ++ ys) (append_assoc g.sent g.todo xs)));
      listed =
          ap (λ f. f ++ map (client_chunk blake3) xs) g.listed
          ∙ (sym (map-append (client_chunk blake3) (g.sent ++ g.todo) xs)
              ∙ ap (map (client_chunk blake3)) (append_assoc g.sent g.todo xs));
      at = g.at;
      sound = g.sound;
    },
    refl,
  )

  chunk_block-IsGood :
      (block rest : List ℕ) (s : Session)
      → 0 < length block
      → IsGood s (block ++ rest)
      → (s' : Session) × (chunk_block w gear blake3 accept file block s ≡ ok s')
        × IsGood s' rest
        × (s'.receiver ≡ s.receiver)
  chunk_block-IsGood block rest s some_bytes g =
      let (xs, ys, r, e, split, cuts') =
        process-next w gear config wide config-IsValid g.buffer block rest g.future some_bytes
          g.cuts in
      found-IsGood block rest r s xs ys g e split cuts'

  -- At the end of the file all chunks are known.
  chunk_end-IsGood :
      (s : Session)
      → IsGood s []
      → (s' : Session) × (chunk_block w gear blake3 accept file [] s ≡ ok s')
        × ((g' : IsGood s' []) × (g'.future ≡ []))
        × (s'.receiver ≡ s.receiver)
  unfolding found-IsGood
  chunk_end-IsGood s g =
      let (s', e, g', same) =
        found-IsGood [] [] [] s g.future [] g
          (process-last w gear config wide config-IsValid g.buffer g.future
            (rw append-nil at g.cuts))
          (sym (append-nil g.future)) (Cuts-nil w gear config wide config-IsValid) in
      (s', e, (g', refl), same)

  exchange_lem :
      (block arrived : Bool) (s : Session) (r : Receiver) (p : Sender) (m n : ℕ)
      → receive block arrived s.receiver ≡ ok (r, m)
      → try_add_chunks accept file s.client_chunks r s.sender ≡ ok (p, n)
      → exchange w gear blake3 accept file block arrived s
        ≡ ok (record s { receiver = r; sender = p; progress = s.progress ++ (n, m) ∷ [] })
  unfolding exchange
  exchange_lem block arrived s r p m n e e' = rw e (rw e' refl)

  -- `TryAddChunks` on all chunks that are known.
  try-Advance :
      (r : Receiver) (s : Session) (rest : List ℕ) (g : IsGood s rest)
      → Entries blake3 hasher basis server r.chunk_offsets
      → Advance blake3 hasher server accept accepts basis basis64 file file64 r s.sender g.sent
          g.todo
          (try_add_chunks accept file s.client_chunks r s.sender)
  unfolding try_add_chunks
  try-Advance r s rest g es =
      let known =
        All-append (λ d. length d ≤ max_chunk_size) (g.sent ++ g.todo) g.future
          (subst (All (λ d. length d ≤ max_chunk_size)) g.parts small) in
      let known' =
        All-append (IsDistinct blake3 hasher server) (g.sent ++ g.todo) g.future
          (subst (All (IsDistinct blake3 hasher server)) g.parts distinct) in
      let here : drop s.sender.curr_chunk_idx s.client_chunks ≡ map (client_chunk blake3) g.todo =
        ap (drop s.sender.curr_chunk_idx) g.listed
        ∙ (ap (λ n. drop n (map (client_chunk blake3) (g.sent ++ g.todo))) g.at.index
            ∙ drop-map (client_chunk blake3) g.sent g.todo) in
      subst
        (λ cs.
          Advance blake3 hasher server accept accepts basis basis64 file file64 r s.sender g.sent
            g.todo (add_chunks accept file r cs s.sender 0))
        (sym here)
        (add_chunks-Advance blake3 hasher server accept accepts basis basis64 file file64 r g.sent
          g.todo (flatten g.future) s.sender 0 es g.at
          (sym whole ∙ (ap flatten g.parts ∙ flatten-append (g.sent ++ g.todo) g.future))
          (All-append (λ d. length d ≤ max_chunk_size) g.sent g.todo known.0).1
          (All-append (IsDistinct blake3 hasher server) g.sent g.todo known'.0).1)

  -- A round of the loop: more is received or sent, or all is.
  exchange-IsGood :
      (block arrived : Bool) (s : Session) (rest : List ℕ) (g : IsGood s rest)
      → (s' : Session) × (g' : IsGood s' rest) × (exchange w gear blake3 accept file block arrived s
          ≡ ok s')
        × (g'.future ≡ g.future)
        × (length s'.receiver.inbox ≤ length s.receiver.inbox)
        × (length g'.todo ≤ length g.todo)
        × (block ≡ true
            → s.receiver.all_chunks_received ≡ false
            → length s'.receiver.inbox < length s.receiver.inbox)
        × (s.receiver.all_chunks_received ≡ true
            → (s'.receiver.all_chunks_received ≡ true)
              × (0 < length g.todo → length g'.todo < length g.todo))
  exchange-IsGood block arrived s rest g =
      let (r, m, e, sound', less, blocks, stays) =
        receive-IsSound blake3 hasher basis server basis64 block arrived s.receiver g.sound in
      let a = try-Advance r s rest g sound'.index.entries in
      (
        record s { receiver = r; sender = a.after; progress = s.progress ++ (a.bytes, m) ∷ [] },
        record {
          buffer = g.buffer;
          sent = a.sent_now;
          todo = a.todo_now;
          future = g.future;
          chunker = g.chunker;
          cuts = g.cuts;
          parts = g.parts ∙ ap (λ f. f ++ g.future) a.parts;
          listed = g.listed ∙ ap (map (client_chunk blake3)) a.parts;
          at = a.at;
          sound = sound';
        },
        exchange_lem block arrived s r a.after m a.bytes e a.returned,
        refl,
        less,
        a.fewer,
        blocks,
        λ all. (stays all, a.one (stays all)),
      )

  known_count :
      (s : Session) (rest : List ℕ) (g : IsGood s rest)
      → length s.client_chunks ≡ length g.sent + length g.todo
  known_count s rest g =
      ap length g.listed
      ∙ (length-map (g.sent ++ g.todo) (client_chunk blake3) ∙ length-append g.sent g.todo)

  unfinished-done :
      (s : Session) (g : IsGood s [])
      → g.future ≡ []
      → unfinished w gear blake3 accept file s ≡ false
      → flatten g.sent ≡ file
  unfolding unfinished
  unfinished-done s g none_left e =
      let zero_left : length g.todo ≡ 0 = ground (arith, known_count s [] g, g.at.index) in
      let all_sent : client ≡ g.sent =
        g.parts
        ∙ (ap (λ f. (g.sent ++ g.todo) ++ f) none_left
            ∙ (append-nil (g.sent ++ g.todo)
                ∙ (ap (λ t. g.sent ++ t) (length-zero g.todo zero_left) ∙ append-nil g.sent))) in
      ap flatten (sym all_sent) ∙ whole

  unfinished-left :
      (s : Session) (g : IsGood s [])
      → unfinished w gear blake3 accept file s ≡ true
      → s.receiver.all_chunks_received ≡ true
      → 0 < length g.todo
  unfolding unfinished
  unfinished-left s g e all = ground (arith, known_count s [] g, g.at.index)

  exchange_loop_done :
      (fuel : ℕ) (s s' : Session)
      → exchange w gear blake3 accept file true false s ≡ ok s'
      → unfinished w gear blake3 accept file s' ≡ false
      → exchange_loop w gear blake3 accept file (suc fuel) s ≡ ok s'
  unfolding exchange_loop
  exchange_loop_done fuel s s' e done = rw (e, exchange_loop) (rw done refl)

  exchange_loop_more :
      (fuel : ℕ) (s s' : Session)
      → exchange w gear blake3 accept file true false s ≡ ok s'
      → unfinished w gear blake3 accept file s' ≡ true
      → exchange_loop w gear blake3 accept file (suc fuel) s
        ≡ exchange_loop w gear blake3 accept file fuel s'
  unfolding exchange_loop
  exchange_loop_more fuel s s' e go = rw (e, exchange_loop) (simp go refl)

  -- With fuel for each response and each chunk that is left, the loop ends with all of the file sent.
  exchange_loop-IsReady :
      (fuel : ℕ) (s : Session) (g : IsGood s [])
      → g.future ≡ []
      → length s.receiver.inbox + length g.todo < fuel
      → (s' : Session) × (exchange_loop w gear blake3 accept file fuel s ≡ ok s')
        × IsReady basis s'.sender file
  unfolding exchange_loop
  exchange_loop-IsReady zero s g none_left h = absurd (omega arith)
  exchange_loop-IsReady (suc fuel) s g none_left h =
      let (s', g', e, same, inbox, todo, blocks, all) = exchange-IsGood true false s [] g in
      elim (Bool-cases (unfinished w gear blake3 accept file s')) [
        | inr done ↦ (
          s',
          exchange_loop_done fuel s s' e done,
          subst (IsReady basis s'.sender) (unfinished-done s' g' (same ∙ none_left) done)
              g'.at.ready,
        )
        | inl go ↦
            let less : length s'.receiver.inbox + length g'.todo < fuel =
              elim (Bool-cases s.receiver.all_chunks_received) [
                | inr wait ↦ omega (arith, blocks refl wait)
                | inl received ↦
                    let (received', shrinks) = all received in
                    omega (arith, shrinks (omega (arith, unfinished-left s' g' go received')))
              ] in
            let (s2, e2, ready) = exchange_loop-IsReady fuel s' g' (same ∙ none_left) less in
            (s2, exchange_loop_more fuel s s' e go ∙ e2, ready)
      ]

  new_session-IsGood :
      (inbox : List SignaturesResponse)
      → Cuts w gear config true file client []
      → flatten server ≡ basis
      → All (λ d. length d < 2 ^ 32) server
      → Signs blake3 hasher inbox server
      → IsGood (new_session inbox) file
  new_session-IsGood inbox cuts same sizes signs = record {
    buffer = [];
    sent = [];
    todo = [];
    future = client;
    chunker = refl;
    cuts = cuts;
    parts = refl;
    listed = refl;
    at = record { ready = new_sender-IsReady basis; index = refl };
    sound = new_receiver-IsSound blake3 hasher basis server basis64 inbox same sizes signs;
  }

  on_eof-IsReady :
      (s : Session)
      → IsGood s []
      → (s' : Session) × (on_eof w gear blake3 accept file s ≡ ok s') × IsReady basis s'.sender file
  unfolding on_eof
  on_eof-IsReady s g =
      let (s1, e1, (g1, _), _) = chunk_end-IsGood s g in
      let (s2, e2, (g2, none_left), _) = chunk_end-IsGood s1 g1 in
      let (s3, e3, ready) =
        exchange_loop-IsReady (suc (rounds w gear blake3 accept file s2)) s2 g2 none_left
          (unfold rounds in omega (arith, known_count s2 [] g2)) in
      (s3, rw e1 (rw e2 e3), ready)

  -- The whole file is read.
  stream-IsReady :
      (blocks : List (List ℕ × Bool)) (s : Session)
      → NonEmpty blocks
      → IsGood s (contents blocks)
      → (s' : Session) × (stream w gear blake3 accept file blocks s ≡ ok s')
        × IsReady basis s'.sender file
  unfolding stream on_block
  stream-IsReady [] s h g = on_eof-IsReady s g
  stream-IsReady ((block, arrived) ∷ blocks) s h g =
      let rest = contents blocks in
      let (s1, e1, g1, _) = chunk_block-IsGood block rest s h.0 g in
      let (s2, g2, e2, _, _, _, _, _) = exchange-IsGood false arrived s1 rest g1 in
      let (s3, e3, ready) = stream-IsReady blocks s2 h.1 g2 in (s3, rw e1 (rw e2 e3), ready)

-- For a client's file of less than 2^64 bytes that is read in blocks that are not empty, a basis
-- file of less than 2^64 bytes in chunks of less than 2^32, and the server's signatures of these in
-- order, the client's side ends without an error and the server's side writes exactly the client's
-- file from the requests sent, if chunks with equal hashes are equal, the message pump accepts
-- every message and no write fails.
pub create_and_send_diff_patches :
    (w : ℕ) (gear : ℕ → ℕ)
    → 0 < w
    → (blake3 : List ℕ → List ℕ) (hasher : IsHasher blake3)
    → (accept : List PatchRequest → PatchRequest → Bool) (accepts : Accepts accept)
    → (can_write : List ℕ → List ℕ → Bool) → Writes can_write
    → (basis : List ℕ) (basis64 : length basis < 2 ^ 64)
    → (server : List (List ℕ)) (inbox : List SignaturesResponse) → flatten server ≡ basis
    → All (λ d. length d < 2 ^ 32) server
    → Signs blake3 hasher inbox server
    → (blocks : List (List ℕ × Bool)) (client : List (List ℕ)) → NonEmpty blocks
    → length (contents blocks) < 2 ^ 64
    → process_all w gear (fresh config) (contents blocks ∷ []) ≡ some client
    → All (IsDistinct blake3 hasher server) client
    → (p : Sender) × (s : Patched) × (create_and_send_diff w gear blake3 accept
          (contents blocks)
          blocks
          inbox
        ≡ ok p)
      × (receive_diff_and_patch can_write basis p.sent ≡ ok s)
      × (s.content ≡ contents blocks)
unfolding create_and_send_diff
create_and_send_diff_patches w gear wide blake3 hasher accept accepts can_write writes basis basis64
      server inbox same sizes signs blocks client some_bytes file64 once distinct =
    let file = contents blocks in
    let (cuts, whole, small) = config-chunks w gear wide file client once in
    let (s, e1, ready) =
      stream-IsReady w gear wide blake3 hasher accept accepts basis basis64 server file file64
        client whole small distinct blocks (new_session inbox) some_bytes
        (new_session-IsGood w gear wide blake3 hasher accept accepts basis basis64 server file
          file64 client whole small distinct inbox cuts same sizes signs) in
    let (p, rs, e2, shape, pays) = flush-Pays accept accepts basis s.sender file ready in
    let (t, e3, content) = receive_diff_and_patch-content can_write writes basis rs file pays in
    (p, t, rw e1 e2, rw shape e3, content)
