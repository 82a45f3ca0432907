-- ===== src/Docker/Frames.antt =====
-- services/api/src/services/docker.ts: the multiplexed output of `exec`, as the 'data' listener of
-- `execInContainerWithExit` and of `execWithStdin` takes it apart. A byte is a number below 256; the
-- part of the buffer from `offset` on is a list.
pub mod Chunks
pub mod RoundTrip
use hill90_app.Prelude.{
  ℕ, zero, suc, ◌+◌, ◌*◌, Bool, true, false, Option, none, some, List, [], ◌∷◌, ◌++◌, ltb, ◌==◌,
  length, take, drop, if◌then◌else◌,
}

abbrev pub Bytes : Type 0
Bytes = List ℕ

-- The variables of the listener; `remainder` is null or the bytes of a frame that is not whole yet.
pub record Output : Type 0 where
  pub stdout_chunks : List Bytes
  pub stderr_chunks : List Bytes
  pub remainder : Option Bytes

pub empty_output : Output
empty_output = record { stdout_chunks = []; stderr_chunks = []; remainder = none }

-- `buf[i]`, which is read in range only.
pub byte_at : ℕ → Bytes → ℕ
byte_at i [] = 0
byte_at zero (b ∷ bs) = b
byte_at (suc i) (b ∷ bs) = byte_at i bs

-- `buf.readUInt32BE(offset + 4)`
pub payload_size : Bytes → ℕ
unfolding byte_at
payload_size buf =
    ((byte_at 4 buf * 256 + byte_at 5 buf) * 256 + byte_at 6 buf) * 256 + byte_at 7 buf

pub push : ℕ → Bytes → Output → Output
push stream_type payload o =
    if stream_type == 1
    then record o { stdout_chunks = o.stdout_chunks ++ payload ∷ [] }
    else if stream_type == 2
    then record o { stderr_chunks = o.stderr_chunks ++ payload ∷ [] }
    else o

-- The `while` loop; `none` means that the fuel ran out.
pub take_frames : ℕ → Bytes → Output → Option Output
take_frames zero buf o = none
take_frames (suc fuel) buf o =
    let rest =
      take_frames fuel (drop (8 + payload_size buf) buf)
        (push (byte_at 0 buf) (take (payload_size buf) (drop 8 buf)) o) in
    if length buf == 0
    then some o
    else if ltb (length buf) 8
    then some (record o { remainder = some buf })
    else if ltb (length buf) (8 + payload_size buf)
    then some (record o { remainder = some buf })
    else rest

-- The buffer that the listener works on.
pub pending : Option Bytes → Bytes
pending none = []
pending (some bytes) = bytes

-- The 'data' listener. Its loop takes at least 8 bytes a round.
pub on_data : Bytes → Output → Option Output
unfolding pending
on_data chunk o =
    let buf = pending o.remainder ++ chunk in
    take_frames (suc (length buf)) buf (record o { remainder = none })

pub on_chunks : List Bytes → Output → Option Output
unfolding on_data
on_chunks [] o = some o
on_chunks (chunk ∷ chunks) o = elim (on_data chunk o) [
  | none ↦ none
  | some o' ↦ on_chunks chunks o'
]

-- `Buffer.concat`
unfoldable pub concat : List Bytes → Bytes
concat [] = []
concat (b ∷ bs) = b ++ concat bs
