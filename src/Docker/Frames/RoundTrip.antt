-- ===== src/Docker/Frames/RoundTrip.antt =====
-- The listener against the daemon's encoding of frames.
use mathlib.Core.List.{append-nil, append_assoc}
use hill90_app.Prelude.{
  ℕ, zero, suc, ◌+◌, ◌*◌, ◌/◌, ◌%◌, ◌<◌, ◌≡◌, ◌∙◌, refl, sym, ap, Option, none, some, List, [], ◌∷◌,
  ◌++◌, arith, ◌==◌, length, take, drop, if◌then◌else◌, length-append, take-append, All,
}
use hill90_app.Docker.Frames.{
  Bytes, Output, empty_output, byte_at, payload_size, push, take_frames, pending, on_data,
  on_chunks, concat,
}
use hill90_app.Prelude.Text.{drop-append}
use hill90_app.Docker.Frames.Chunks.{take_frames_whole, then_data, on_data-append}

-- A frame as the daemon sends it: its stream, three zeros, its size in four bytes, its payload.
pub record Frame : Type 0 where
  pub stream : ℕ
  pub payload : Bytes

abbrev pub header : ℕ → ℕ → Bytes
header stream n =
    stream ∷ 0 ∷ 0 ∷ 0 ∷ n / 16777216 % 256 ∷ n / 65536 % 256 ∷ n / 256 % 256 ∷ n % 256 ∷ []

abbrev pub encode : Frame → Bytes
encode f = header f.stream (length f.payload) ++ f.payload

-- The size of the payload fits into the four bytes of the header.
abbrev pub Fits : Frame → Type 0
Fits f = length f.payload < 4294967296

unfoldable pub encode_all : List Frame → Bytes
encode_all [] = []
encode_all (f ∷ fs) = encode f ++ encode_all fs

-- The payloads of one stream, in order.
pub payloads : ℕ → List Frame → List Bytes
payloads stream [] = []
payloads stream (f ∷ fs) =
    let rest = payloads stream fs in if f.stream == stream then f.payload ∷ rest else rest

push_all : List Frame → Output → Output
push_all [] o = o
push_all (f ∷ fs) o = push_all fs (push f.stream f.payload o)

payload_size-encode :
    (f : Frame) (rest : Bytes) → Fits f → payload_size (encode f ++ rest) ≡ length f.payload
unfolding payload_size byte_at
payload_size-encode f rest h = split (length f.payload) h
  where
    split :
        (n : ℕ)
        → n < 4294967296
        → ((n / 16777216 % 256 * 256 + n / 65536 % 256) * 256 + n / 256 % 256) * 256 + n % 256 ≡ n
    split n h = omega arith

drop-header :
    (n m : ℕ) (stream : ℕ) (rest : Bytes) → drop (8 + n) (header stream m ++ rest) ≡ drop n rest
drop-header n m stream rest =
    let e : 8 + n ≡ suc (suc (suc (suc (suc (suc (suc (suc n))))))) = omega arith in
    ap (λ k. drop k (header stream m ++ rest)) e

take_frames-encode :
    (k : ℕ) (f : Frame) (rest : Bytes) (o : Output)
    → Fits f
    → take_frames (suc k) (encode f ++ rest) o ≡ take_frames k rest (push f.stream f.payload o)
unfolding byte_at
take_frames-encode k f rest o h =
    let size = payload_size-encode f rest h in
    take_frames_whole k (encode f ++ rest) o (omega (arith, size, length-append f.payload rest))
    ∙ ap
        (λ n.
          take_frames k (drop (8 + n) (encode f ++ rest))
            (push f.stream (take n (f.payload ++ rest)) o))
        size
    ∙ ap (λ l. take_frames k l (push f.stream (take (length f.payload) (f.payload ++ rest)) o))
        (drop-header (length f.payload) (length f.payload) f.stream (f.payload ++ rest)
          ∙ drop-append f.payload rest)
    ∙ ap (λ l. take_frames k rest (push f.stream l o)) (take-append f.payload rest)

take_frames-encode_all :
    (k : ℕ) (fs : List Frame) (o : Output)
    → length (encode_all fs) < k
    → All Fits fs
    → o.remainder ≡ none
    → take_frames k (encode_all fs) o ≡ some (push_all fs o)
unfolding encode_all push_all
take_frames-encode_all zero fs o h fits e = absurd (omega arith)
take_frames-encode_all (suc k) [] o h fits e = unfold take_frames in refl
take_frames-encode_all (suc k) (f ∷ fs) o h fits e =
    take_frames-encode k f (encode_all fs) o fits.0
    ∙ take_frames-encode_all k fs (push f.stream f.payload o)
        (omega (arith, length-append f.payload (encode_all fs))) fits.1
        (unfold push in ground (arith, e))

push_all-payloads :
    (fs : List Frame) (o : Output)
    → (push_all fs o).stdout_chunks ≡ o.stdout_chunks ++ payloads 1 fs
      × ((push_all fs o).stderr_chunks ≡ o.stderr_chunks ++ payloads 2 fs)
      × ((push_all fs o).remainder ≡ o.remainder)
unfolding push_all payloads push
push_all-payloads [] o = (sym (append-nil o.stdout_chunks), sym (append-nil o.stderr_chunks), refl)
push_all-payloads (f ∷ fs) o = ground (
  arith,
  push_all-payloads fs (push f.stream f.payload o),
  append_assoc o.stdout_chunks (f.payload ∷ []) (payloads 1 fs),
  append_assoc o.stderr_chunks (f.payload ∷ []) (payloads 2 fs),
)

output_eq :
    (fs : List Frame)
    → push_all fs empty_output
      ≡ record { stdout_chunks = payloads 1 fs; stderr_chunks = payloads 2 fs; remainder = none }
unfolding empty_output
output_eq fs = ground (arith, push_all-payloads fs empty_output)

on_chunks-concat :
    (c : Bytes) (cs : List Bytes) (o : Output) → on_chunks (c ∷ cs) o ≡ on_data (c ++ concat cs) o
unfolding on_chunks concat
on_chunks-concat c [] o = last (on_data c o) ∙ ap (λ b. on_data b o) (sym (append-nil c))
  where
    last :
        (r : Option Output)
        → (elim r as (λ _. Option Output) [ none ↦ none | some o' ↦ some o' ]) ≡ r
    last none = refl
    last (some o') = refl
on_chunks-concat c (d ∷ ds) o =
    onwards (λ o'. on_chunks-concat d ds o') (on_data c o) ∙ on_data-append c (d ++ concat ds) o
  where
    onwards :
        ((o' : Output) → on_chunks (d ∷ ds) o' ≡ on_data (d ++ concat ds) o')
        → (r : Option Output)
        → (elim r as (λ _. Option Output) [ none ↦ none | some o' ↦ on_chunks (d ∷ ds) o' ])
          ≡ then_data (d ++ concat ds) r
    onwards ih none = refl
    onwards ih (some o') = ih o'

-- However the bytes of a sequence of frames, each with a payload shorter than 2^32 bytes, are cut into
-- chunks, the listener collects exactly the payloads of streams 1 and 2, whole and in order, skips
-- those of any other stream, and keeps no remainder.
pub on_chunks-encode_all :
    (chunks : List Bytes) (fs : List Frame)
    → concat chunks ≡ encode_all fs
    → All Fits fs
    → on_chunks chunks empty_output
      ≡ some (record {
        stdout_chunks = payloads 1 fs;
        stderr_chunks = payloads 2 fs;
        remainder = none;
      })
unfolding concat
on_chunks-encode_all chunks fs h fits =
    whole chunks ∙ ap (λ b. on_data b empty_output) h ∙ once ∙ ap some (output_eq fs)
  where
    whole : (cs : List Bytes) → on_chunks cs empty_output ≡ on_data (concat cs) empty_output
    whole [] = unfold on_chunks concat on_data take_frames empty_output pending in refl
    whole (c ∷ cs) = on_chunks-concat c cs empty_output

    once : on_data (encode_all fs) empty_output ≡ some (push_all fs empty_output)
    once =
        unfold on_data empty_output pending in
        take_frames-encode_all (suc (length (encode_all fs))) fs empty_output (omega arith) fits
          refl
