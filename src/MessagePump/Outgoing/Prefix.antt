-- ===== src/MessagePump/Outgoing/Prefix.antt =====
-- cdc_rsync/base/message_pump.cc: what the sender thread puts out is what was queued, in order.
use mathlib.Core.Bool.{false≢true}
use mathlib.Core.List.{map-append}
use cdc_file_transfer.Prelude.{
  ℕ, ◌+◌, ◌≡◌, inl, inr, refl, sym, ap, ◌∙◌, Bool, true, false, ◌||◌, List, [], ◌∷◌, ◌++◌, map,
  Option, none, some, length, take, drop, flatten, flatten-append, append_assoc, append-nil,
  take-append-drop, take-nil, arith, Bool-cases, ◌==◌, ==_iff,
}
use cdc_file_transfer.Prelude.Status.{Code}
use cdc_file_transfer.MessagePump.Outgoing.{
  Flags, Sender, idle, grabbed, sending, sent, send_failing, send_failed, sender_stopped, Output,
  Outgoing, is_flushed, grab_packet, do_send, sender_at, sender_step,
}
use cdc_file_transfer.MessagePump.Outgoing.Bytes.{enqueued, IsCounted, total_size, held_size}

-- All bytes that went out.
abbrev pub all_bytes : List Output → List ℕ
all_bytes outputs = flatten (map (λ d. d.output_bytes) outputs)

-- The packet that the sender thread has yet to send.
abbrev pub in_hand : Sender → List ℕ
in_hand (grabbed b) = b
in_hand (sending b) = b
in_hand _ = []

-- Nothing has been dropped and nothing is lost: no packet was thrown away after an error.
abbrev pub IsIntact : Flags → Sender → Type 0
IsIntact f (sending b) = Unit
IsIntact f (grabbed b) = f.receive_error ≡ false
IsIntact f (send_failing n code) = n ≡ 0
IsIntact f (send_failed n) = n ≡ 0
IsIntact f _ = (f.send_error ≡ false) × (f.receive_error ≡ false)

-- The bytes that went out are the first ones of the stream, and the others are at hand and queued.
abbrev pub IsSent : Flags → List ℕ → Outgoing → Type 0
IsSent f stream o =
    (IsIntact f o.sender
      → all_bytes o.outputs ++ (in_hand o.sender ++ flatten o.outgoing_packets) ≡ stream)
    × ((rest : List ℕ) × (all_bytes o.outputs ++ rest ≡ stream))

snoc :
    (g h : List ℕ) (q : List (List ℕ)) (b : List ℕ)
    → g ++ (h ++ flatten (q ++ b ∷ [])) ≡ (g ++ (h ++ flatten q)) ++ b
snoc g h q b =
    ap (λ x. g ++ (h ++ x)) (flatten-append q (b ∷ []) ∙ ap (λ x. flatten q ++ x) (append-nil b))
    ∙ sym (append_assoc g (h ++ flatten q) b ∙ ap (λ x. g ++ x) (append_assoc h (flatten q) b))

pub enqueued-IsSent :
    (f : Flags) (stream b : List ℕ) (o : Outgoing)
    → IsSent f stream o
    → IsSent f (stream ++ b) (enqueued b o)
enqueued-IsSent f stream b o (e, (rest, p)) = (
  (λ i.
      snoc (all_bytes o.outputs) (in_hand o.sender) o.outgoing_packets b ∙ ap (λ x. x ++ b) (e i)),
  (rest ++ b, sym (append_assoc (all_bytes o.outputs) rest b) ∙ ap (λ x. x ++ b) p),
)

all_bytes-snoc :
    (ds : List Output) (d : Output) → all_bytes (ds ++ d ∷ []) ≡ all_bytes ds ++ d.output_bytes
all_bytes-snoc ds d =
    ap flatten (map-append (λ x. x.output_bytes) ds (d ∷ []))
    ∙ flatten-append (map (λ x. x.output_bytes) ds) (d.output_bytes ∷ [])
    ∙ ap (λ x. all_bytes ds ++ x) (append-nil d.output_bytes)

is_nil : (b : List ℕ) → length b ≡ 0 → b ≡ []
is_nil [] e = refl
is_nil (x ∷ b) e = absurd (omega (arith, e))

-- A longer list of errors keeps it.
IsIntact-weaken :
    (f f' : Flags) (s : Sender)
    → (f'.send_error ≡ false → f.send_error ≡ false)
    → (f'.receive_error ≡ false → f.receive_error ≡ false)
    → IsIntact f' s
    → IsIntact f s
IsIntact-weaken f f' idle a b (x, y) = (a x, b y)
IsIntact-weaken f f' (grabbed c) a b x = b x
IsIntact-weaken f f' (sending c) a b x = tt
IsIntact-weaken f f' (sent n) a b (x, y) = (a x, b y)
IsIntact-weaken f f' (send_failing n c) a b x = x
IsIntact-weaken f f' (send_failed n) a b x = x
IsIntact-weaken f f' (sender_stopped n) a b (x, y) = (a x, b y)

pub IsSent-weaken :
    (f f' : Flags) (stream : List ℕ) (o : Outgoing)
    → (f'.send_error ≡ false → f.send_error ≡ false)
    → (f'.receive_error ≡ false → f.receive_error ≡ false)
    → IsSent f stream o
    → IsSent f' stream o
IsSent-weaken f f' stream o a b (e, p) = ((λ i. e (IsIntact-weaken f f' o.sender a b i)), p)

or_left : (a b : Bool) → (a || b) ≡ false → a ≡ false
or_left true b h = h
or_left false b h = refl

-- What `IsSent` says of a sender that is about to do the next step.
abbrev At : Flags → List ℕ → Sender → Outgoing → Type 0
At f stream s o =
    (IsIntact f s → all_bytes o.outputs ++ (in_hand s ++ flatten o.outgoing_packets) ≡ stream)
    × ((rest : List ℕ) × (all_bytes o.outputs ++ rest ≡ stream))

grab_packet-IsSent :
    (q : List (List ℕ)) (f : Flags) (stream : List ℕ) (o : Outgoing)
    → o.outgoing_packets ≡ q
    → o.sender ≡ idle
    → f.send_error ≡ false
    → At f stream idle o
    → IsSent f stream (grab_packet q o)
unfolding grab_packet
grab_packet-IsSent [] f stream o e s g h = rw s h
grab_packet-IsSent (b ∷ q) f stream o e s g (h, p) =
    ((λ i. ap (λ x. all_bytes o.outputs ++ flatten x) (sym e) ∙ h (g, i)), p)

do_send-IsSent :
    (outcome : Option (ℕ × Code)) (b : List ℕ) (f : Flags) (stream : List ℕ) (o : Outgoing)
    → all_bytes o.outputs ++ (b ++ flatten o.outgoing_packets) ≡ stream
    → IsSent f stream (do_send outcome b o)
unfolding do_send
do_send-IsSent none b f stream o e = ((λ i. whole), (flatten o.outgoing_packets, whole))
  where
    whole :
        all_bytes (o.outputs ++ record { to_handler = o.has_output_handler; output_bytes = b } ∷ [])
          ++ flatten o.outgoing_packets
        ≡ stream
    whole =
        ap (λ x. x ++ flatten o.outgoing_packets) (all_bytes-snoc o.outputs _)
        ∙ append_assoc (all_bytes o.outputs) b (flatten o.outgoing_packets)
        ∙ e
do_send-IsSent (some (n, code)) b f stream o e = (
  (λ i.
      ap (λ x. x ++ flatten o.outgoing_packets) (all_bytes-snoc o.outputs _)
      ∙ append_assoc (all_bytes o.outputs) (take n b) (flatten o.outgoing_packets)
      ∙ ap (λ x. all_bytes o.outputs ++ (x ++ flatten o.outgoing_packets)) (prefix_nil i)
      ∙ e),
  (
    drop n b ++ flatten o.outgoing_packets,
    ap (λ x. x ++ (drop n b ++ flatten o.outgoing_packets)) (all_bytes-snoc o.outputs _)
        ∙ append_assoc (all_bytes o.outputs) (take n b) (drop n b ++ flatten o.outgoing_packets)
        ∙ ap (λ x. all_bytes o.outputs ++ x)
            (sym (append_assoc (take n b) (drop n b) (flatten o.outgoing_packets))
              ∙ ap (λ x. x ++ flatten o.outgoing_packets) (take-append-drop n b))
        ∙ e,
  ),
)
  where
    prefix_nil : length b ≡ 0 → take n b ≡ b
    prefix_nil i = ap (take n) (is_nil b i) ∙ (take-nil n ∙ sym (is_nil b i))

sender_at-At :
    (s : Sender) (outcome : Option (ℕ × Code)) (f : Flags) (stream : List ℕ) (o : Outgoing)
    → o.sender ≡ s
    → At f stream s o
    → IsSent (sender_at s outcome f o).0 stream (sender_at s outcome f o).1
unfolding sender_at
sender_at-At idle outcome f stream o e h = elim (Bool-cases (f.send_error || f.shutdown)) [
  | inl t ↦ rw t h
  | inr t ↦ rw t (grab_packet-IsSent o.outgoing_packets f stream o refl e (or_left _ _ t) h)
]
sender_at-At (grabbed b) outcome f stream o e (h, p) = elim (Bool-cases f.receive_error) [
  | inl t ↦ rw t ((λ i. absurd (false≢true (sym i.1))), p)
  | inr t ↦ rw t ((λ i. h t), p)
]
sender_at-At (sending b) outcome f stream o e (h, p) = do_send-IsSent outcome b f stream o (h tt)
sender_at-At (sent n) outcome f stream o e h = h
sender_at-At (send_failing n code) outcome f stream o e h = h
sender_at-At (send_failed n) outcome f stream o e (h, p) = ((λ i. absurd (false≢true (sym i.0))), p)
sender_at-At (sender_stopped n) outcome f stream o e h = rw e h

pub sender_step-IsSent :
    (outcome : Option (ℕ × Code)) (f : Flags) (stream : List ℕ) (o : Outgoing)
    → IsSent f stream o
    → IsSent (sender_step outcome f o).0 stream (sender_step outcome f o).1
unfolding sender_step
sender_step-IsSent outcome f stream o h = sender_at-At o.sender outcome f stream o refl h

flatten_zero : (q : List (List ℕ)) → total_size q ≡ 0 → flatten q ≡ []
flatten_zero [] e = refl
flatten_zero (b ∷ q) e =
    ap (λ x. x ++ flatten q) (is_nil b (omega (arith, e))) ∙ flatten_zero q (omega (arith, e))

-- Without errors, a counter of zero leaves nothing to lose.
zero-IsIntact :
    (s : Sender) (f : Flags)
    → held_size s ≡ 0
    → f.send_error ≡ false
    → f.receive_error ≡ false
    → IsIntact f s
zero-IsIntact idle f z a b = (a, b)
zero-IsIntact (grabbed x) f z a b = b
zero-IsIntact (sending x) f z a b = tt
zero-IsIntact (sent n) f z a b = (a, b)
zero-IsIntact (send_failing n code) f z a b = z
zero-IsIntact (send_failed n) f z a b = z
zero-IsIntact (sender_stopped n) f z a b = (a, b)

zero-in_hand : (s : Sender) → held_size s ≡ 0 → in_hand s ≡ []
zero-in_hand idle z = refl
zero-in_hand (grabbed x) z = is_nil x z
zero-in_hand (sending x) z = is_nil x z
zero-in_hand (sent n) z = refl
zero-in_hand (send_failing n code) z = refl
zero-in_hand (send_failed n) z = refl
zero-in_hand (sender_stopped n) z = refl

is_flushed-zero :
    (f : Flags) (o : Outgoing)
    → f.send_error ≡ false
    → f.receive_error ≡ false
    → is_flushed f o ≡ true
    → o.outgoing_byte_size ≡ 0
unfolding is_flushed
is_flushed-zero f o a b e = elim (Bool-cases (o.outgoing_byte_size == 0)) [
  | inl z ↦ (==_iff o.outgoing_byte_size 0).0 z
  | inr z ↦ absurd (false≢true (simp (z, a, b) at e))
]

-- Where `FlushOutgoingQueue` returns without an error, all has gone out.
pub is_flushed-IsSent :
    (f : Flags) (stream : List ℕ) (o : Outgoing)
    → f.send_error ≡ false
    → f.receive_error ≡ false
    → is_flushed f o ≡ true
    → IsCounted o
    → IsSent f stream o
    → all_bytes o.outputs ≡ stream
is_flushed-IsSent f stream o a b e (c, m) (h, p) =
    sym (append-nil (all_bytes o.outputs))
    ∙ ap (λ x. all_bytes o.outputs ++ x) (sym nothing)
    ∙ h (zero-IsIntact o.sender f held a b)
  where
    total : total_size o.outgoing_packets + held_size o.sender ≡ 0
    total = sym c ∙ is_flushed-zero f o a b e

    held : held_size o.sender ≡ 0
    held = omega (arith, total)

    nothing : in_hand o.sender ++ flatten o.outgoing_packets ≡ []
    nothing =
        ap (λ x. x ++ flatten o.outgoing_packets) (zero-in_hand o.sender held)
        ∙ flatten_zero o.outgoing_packets (omega (arith, total))
