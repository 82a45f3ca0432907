-- ===== src/Docker/Tests.antt =====
-- A stream of three frames in three chunks, one of which cuts a header.
use hill90_app.Prelude.{
  given, ℕ, ◌*◌, if◌then◌else◌, ◌↔◌, ◌==◌, ◌+◌, ◌-◌, ◌≡◌, refl, none, some, List, [], ◌∷◌, arith,
  All,
}
use hill90_app.Docker.Frames.{Bytes, Output, empty_output, take_frames, on_chunks, concat}
use hill90_app.Docker.Frames.Chunks.{take_frames-total}
use hill90_app.Docker.Frames.RoundTrip.{Frame, encode_all, Fits, payloads, on_chunks-encode_all}
use hill90_app.Docker.Limits.{
  finite, negative, natural, capped, text, mem_value, parse_mem_limit,
  container_profile_ceiling_violations, ContainerProfileResourceRow,
}
use hill90_app.Docker.Limits.Agreed.{IsStartable, container_profile_ceiling_violations-none}
use hill90_app.Prelude.Exec.{ok}
use hill90_app.Prelude.Text.{codes, Text}

abbrev three : List Frame
three =
    record { stream = 1; payload = 104 ∷ 105 ∷ [] }
    ∷ record { stream = 2; payload = 33 ∷ [] }
    ∷ record { stream = 1; payload = [] }
    ∷ []

abbrev in_chunks : List Bytes
in_chunks =
    (1 ∷ 0 ∷ 0 ∷ 0 ∷ 0 ∷ [])
    ∷ (0 ∷ 0 ∷ 2 ∷ 104 ∷ 105 ∷ 2 ∷ 0 ∷ 0 ∷ 0 ∷ 0 ∷ 0 ∷ 0 ∷ 1 ∷ [])
    ∷ (33 ∷ 1 ∷ 0 ∷ 0 ∷ 0 ∷ 0 ∷ 0 ∷ 0 ∷ 0 ∷ [])
    ∷ []

in_chunks-three : concat in_chunks ≡ encode_all three
unfolding concat encode_all
in_chunks-three = refl

three-fit : All Fits three
three-fit = (omega arith, (omega arith, (omega arith, tt)))

on_chunks-encode_all_example :
    on_chunks in_chunks empty_output
    ≡ some (record {
      stdout_chunks = payloads 1 three;
      stderr_chunks = payloads 2 three;
      remainder = none;
    })
on_chunks-encode_all_example = on_chunks-encode_all in_chunks three in_chunks-three three-fit

cut : Bytes
cut = 1 ∷ 0 ∷ 0 ∷ 0 ∷ 0 ∷ 0 ∷ 0 ∷ 2 ∷ 104 ∷ []

take_frames-total_example : (o : Output) × (take_frames 10 cut empty_output ≡ some o)
unfolding cut
take_frames-total_example = take_frames-total 10 cut empty_output (omega arith)

-- The whole part of a decimal, as a number of ones.
whole : ℕ → Text → ℕ
whole n [] = n
whole n (c ∷ s) = let rest = whole (n * 10 + (c - 48)) s in if c == 46 then n else rest

abbrev browser : ContainerProfileResourceRow
browser = record {
  name = "browser";
  default_cpus = text (codes "2.0");
  default_mem_limit = text (codes "2g");
  default_pids_limit = natural 300;
}

abbrev unlimited : ContainerProfileResourceRow
unlimited = record browser {
  name = "unlimited";
  default_mem_limit = text (codes "0");
  default_pids_limit = negative 1;
}

-- No memory at all is refused by the routes and read by the creation.
zero_memory : parse_mem_limit 1 1000000000000 (whole 0) unlimited.default_mem_limit ≡ ok (finite 0)
unfolding parse_mem_limit whole mem_value capped given
zero_memory = refl

container_profile_ceiling_violations-none_example :
    (container_profile_ceiling_violations 1 1000000000000 (whole 0) (browser ∷ unlimited ∷ []) ≡ [])
    ↔ All {0, 0}
        (λ (p : ContainerProfileResourceRow). IsStartable 1 1000000000000 (whole 0) p)
        (browser ∷ unlimited ∷ [])
container_profile_ceiling_violations-none_example =
    container_profile_ceiling_violations-none 1 1000000000000 (whole 0) (browser ∷ unlimited ∷ [])
