-- ===== src/Docker/Frames/Chunks.antt =====
-- How the stream is cut into chunks makes no difference.
use mathlib.Core.List.{append_assoc}
use hill90_app.Prelude.{
  ◌⊎◌, ltb→lt, ℕ, zero, suc, ◌+◌, ◌≤◌, ◌<◌, ◌≡◌, ◌∙◌, refl, sym, ap, inl, inr, Option, none, some,
  [], ◌∷◌, ◌++◌, arith, ltb, ◌==◌, length, take, drop, Bool-cases, length-append, length-drop,
  take-append_le, drop-append_le,
}
use hill90_app.Docker.Frames.{
  Bytes, Output, byte_at, payload_size, push, take_frames, pending, on_data,
}

-- A loop with more fuel than the buffer has bytes ends.
pub take_frames-total :
    (f : ℕ) (buf : Bytes) (o : Output)
    → length buf < f
    → (r : Output) × (take_frames f buf o ≡ some r)
unfolding take_frames
take_frames-total zero buf o h = elim h [ ]
take_frames-total (suc f) buf o h = elim (Bool-cases (length buf == 0)) [
  | inl done ↦ (o, rw done)
  | inr more ↦ elim (Bool-cases (ltb (length buf) 8)) [
    | inl short ↦ (record o { remainder = some buf }, rw more (rw short))
    | inr headed ↦ elim (Bool-cases (ltb (length buf) (8 + payload_size buf))) [
      | inl short ↦ (record o { remainder = some buf }, rw more (rw headed (rw short)))
      | inr whole ↦ rw more (
          rw headed (
            rw whole
              (take_frames-total f _ _ (ground (arith, length-drop (8 + payload_size buf) buf)))))
    ]
  ]
]

-- More fuel changes nothing.
take_frames_fuel :
    (f g : ℕ) (buf : Bytes) (o : Output)
    → length buf < f
    → length buf < g
    → take_frames f buf o ≡ take_frames g buf o
unfolding take_frames
take_frames_fuel zero g buf o h k = elim h [ ]
take_frames_fuel (suc f) zero buf o h k = elim k [ ]
take_frames_fuel (suc f) (suc g) buf o h k = ground (
  arith,
  take_frames_fuel f g (drop (8 + payload_size buf) buf)
      (push (byte_at 0 buf) (take (payload_size buf) (drop 8 buf)) o),
  length-drop (8 + payload_size buf) buf,
)

byte_at-append : (i : ℕ) (xs ys : Bytes) → i < length xs → byte_at i (xs ++ ys) ≡ byte_at i xs
unfolding byte_at
byte_at-append i [] ys h = elim h [ ]
byte_at-append zero (x ∷ xs) ys h = refl
byte_at-append (suc i) (x ∷ xs) ys h = byte_at-append i xs ys (omega arith)

payload_size-append : (xs ys : Bytes) → 8 ≤ length xs → payload_size (xs ++ ys) ≡ payload_size xs
unfolding payload_size
payload_size-append xs ys h = omega (
  arith,
  byte_at-append 4 xs ys (omega arith),
  byte_at-append 5 xs ys (omega arith),
  byte_at-append 6 xs ys (omega arith),
  byte_at-append 7 xs ys (omega arith),
)

abbrev clear : Output → Output
clear o = record o { remainder = none }

push-clear :
    (t : ℕ) (payload : Bytes) (o : Output) → push t payload (clear o) ≡ clear (push t payload o)
unfolding push
push-clear t payload o = ground arith

-- The listener on what the loop left.
abbrev pub then_data : Bytes → Option Output → Option Output
then_data b none = none
then_data b (some o) = on_data b o

on_data-clear :
    (g : ℕ) (a b : Bytes) (o : Output)
    → length (a ++ b) < g
    → on_data b (record o { remainder = some a }) ≡ take_frames g (a ++ b) (clear o)
unfolding on_data pending
on_data-clear g a b o h =
    take_frames_fuel (suc (length (a ++ b))) g (a ++ b) (clear o) (omega arith) h

-- One round of the loop.
take_frames_short :
    (f : ℕ) (buf : Bytes) (o : Output)
    → 0 < length buf
    → (length buf < 8) ⊎ (length buf < 8 + payload_size buf)
    → take_frames (suc f) buf o ≡ some (record o { remainder = some buf })
unfolding take_frames
take_frames_short f buf o h short = ground arith

pub take_frames_whole :
    (f : ℕ) (buf : Bytes) (o : Output)
    → 8 + payload_size buf ≤ length buf
    → take_frames (suc f) buf o
      ≡ take_frames f
          (drop (8 + payload_size buf) buf)
          (push (byte_at 0 buf) (take (payload_size buf) (drop 8 buf)) o)
unfolding take_frames
take_frames_whole f buf o h = ground arith

-- The round of a whole frame, with more behind it.
take_frames_whole-append :
    (g : ℕ) (buf b : Bytes) (o : Output)
    → 8 + payload_size buf ≤ length buf
    → take_frames (suc g) (buf ++ b) o
      ≡ take_frames g
          (drop (8 + payload_size buf) buf ++ b)
          (push (byte_at 0 buf) (take (payload_size buf) (drop 8 buf)) o)
take_frames_whole-append g buf b o h =
    let size = payload_size-append buf b (omega arith) in
    let first = byte_at-append 0 buf b (omega arith) in
    let tail = drop-append_le (8 + payload_size buf) buf b h in
    let body = drop-append_le 8 buf b (omega arith) in
    let payload =
      take-append_le (payload_size buf) (drop 8 buf) b (omega (arith, length-drop 8 buf)) in
    take_frames_whole g (buf ++ b) o (omega (arith, size, length-append buf b))
    ∙ ap
        (λ n.
          take_frames g (drop (8 + n) (buf ++ b))
            (push (byte_at 0 (buf ++ b)) (take n (drop 8 (buf ++ b))) o))
        size
    ∙ ap
        (λ t.
          take_frames g t
            (push (byte_at 0 (buf ++ b)) (take (payload_size buf) (drop 8 (buf ++ b))) o))
        tail
    ∙ ap
        (λ d.
          take_frames g (drop (8 + payload_size buf) buf ++ b)
            (push (byte_at 0 (buf ++ b)) (take (payload_size buf) d) o))
        body
    ∙ ap
        (λ d.
          take_frames g (drop (8 + payload_size buf) buf ++ b) (push (byte_at 0 (buf ++ b)) d o))
        payload
    ∙ ap
        (λ t.
          take_frames g (drop (8 + payload_size buf) buf ++ b)
            (push t (take (payload_size buf) (drop 8 buf)) o))
        first

frames_step :
    (f g : ℕ) (a b : Bytes) (o : Output)
    → 0 < length a
    → length a < suc f
    → length (a ++ b) < suc g
    → ((o' : Output) (a' : Bytes)
        → length a' < f
        → length (a' ++ b) < g
        → then_data b (take_frames f a' (clear o')) ≡ take_frames g (a' ++ b) (clear o'))
    → then_data b (take_frames (suc f) a (clear o)) ≡ take_frames (suc g) (a ++ b) (clear o)
frames_step f g a b o pos h k later = elim (Bool-cases (ltb (length a) (8 + payload_size a))) [
  | inl short ↦
      ap (then_data b) (take_frames_short f a (clear o) pos (inr (ltb→lt _ _ short)))
      ∙ on_data-clear (suc g) a b o k
  | inr whole ↦
      let fits : 8 + payload_size a ≤ length a = ground arith in
      let o' = push (byte_at 0 a) (take (payload_size a) (drop 8 a)) o in
      let a' = drop (8 + payload_size a) a in
      ap (then_data b) (take_frames_whole f a (clear o) fits)
      ∙ ap (λ q. then_data b (take_frames f a' q)) (push-clear (byte_at 0 a) _ o)
      ∙ later o' a' (omega (arith, length-drop (8 + payload_size a) a))
          (omega (arith, length-drop (8 + payload_size a) a, length-append a b, length-append a' b))
      ∙ ap (take_frames g (a' ++ b)) (sym (push-clear (byte_at 0 a) _ o))
      ∙ sym (take_frames_whole-append g a b (clear o) fits)
]

take_frames-append :
    (f g : ℕ) (a b : Bytes) (o : Output)
    → length a < f
    → length (a ++ b) < g
    → then_data b (take_frames f a (clear o)) ≡ take_frames g (a ++ b) (clear o)
take_frames-append zero g a b o h k = elim h [ ]
take_frames-append (suc f) zero a b o h k = elim k [ ]
take_frames-append (suc f) (suc g) [] b o h k =
    unfold take_frames on_data pending in
    take_frames_fuel (suc (length b)) (suc g) b (clear o) (omega arith) k
take_frames-append (suc f) (suc g) (x ∷ a) b o h k =
    frames_step f g (x ∷ a) b o (omega arith) h k
      (λ o' a' h' k'. take_frames-append f g a' b o' h' k')

-- Two chunks, one after the other, leave what the two in one chunk leave.
pub on_data-append : (a b : Bytes) (o : Output) → then_data b (on_data a o) ≡ on_data (a ++ b) o
unfolding on_data
on_data-append a b o =
    take_frames-append (suc (length (pending o.remainder ++ a)))
      (suc (length (pending o.remainder ++ a ++ b))) (pending o.remainder ++ a) b o (omega arith)
      (omega (arith, ap (λ (l : Bytes). length l) (append_assoc (pending o.remainder) a b)))
    ∙ ap (λ l. take_frames (suc (length l)) l (clear o)) (append_assoc (pending o.remainder) a b)
