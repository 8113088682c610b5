-- ===== src/Runtime/Fanout/Chunks.antt =====
-- `chunks` of crates/runtime/src/fanout/mod.rs: the outputs of a request, cut into calls.
use mathlib.Core.Option
use imagegen_bridge.Prelude.{
  ℕ, zero, suc, ◌+◌, ◌-◌, ◌≤◌, ◌<◌, min, ◌≡◌, Option, none, some, refl, List, [], ◌∷◌, length,
  ltb→lt, ltb, leb, ◌&&◌, if◌then◌else◌, wrapping_add_u8, sum_of, arith, Bool-cases, inl, inr,
}
use imagegen_bridge.Core.Error.{Result}
use imagegen_bridge.Core.Response.{ImageResponse}

pub record ChunkSpec : Type 0 where
  pub offset : ℕ
  pub count : ℕ

pub record ChunkResult : Type 0 where
  pub offset : ℕ
  pub count : ℕ
  pub elapsed_ms : ℕ
  pub result : Result ImageResponse

-- The loop of `chunks`, on fuel: a round moves the offset up. It is none where the loop needs more rounds
-- than there is fuel, be it that the offset stays behind the total for good.
unfoldable pub chunks_from : ℕ → ℕ → ℕ → ℕ → Option (List ChunkSpec)
chunks_from zero offset total native_max = if ltb offset total then none else some []
chunks_from (suc fuel) offset total native_max =
    let count = min native_max (total - offset) in
    let rest = chunks_from fuel (wrapping_add_u8 offset count) total native_max in
    if ltb offset total
    then Option.map (λ chunks. record { offset = offset; count = count } ∷ chunks) rest
    else some []

unfoldable pub chunks : ℕ → ℕ → Option (List ChunkSpec)
unfolding chunks_from
chunks total native_max = chunks_from total 0 total native_max

-- 1 for an output of the calls from `offset` on, as many as `count`, and 0 for another.
abbrev pub covers : ℕ → ℕ → ℕ → ℕ
covers output offset count = if leb offset output && ltb output (offset + count) then 1 else 0

abbrev pub chunk_covers : ℕ → ChunkSpec → ℕ
chunk_covers output chunk = covers output chunk.offset chunk.count

-- 0 for a chunk that the provider serves in one call, and that is within the batch.
abbrev pub unfit : ℕ → ℕ → ℕ → ℕ → ℕ
unfit native_max total offset count =
    if leb 1 count && leb count native_max && leb (offset + count) total then 0 else 1

-- The outputs from `offset` on in calls that the provider serves, each output in one of them.
pub record IsCut (total native_max offset : ℕ) (chunks : List ChunkSpec) : Type 0 where
  pub covered :
      (output : ℕ) → sum_of (chunk_covers output) chunks ≡ covers output offset (total - offset)
  pub fit : sum_of (λ chunk. unfit native_max total chunk.offset chunk.count) chunks ≡ 0
  pub few : length chunks ≤ total - offset

nothing_left-IsCut :
    (total native_max offset : ℕ) → total ≤ offset → IsCut total native_max offset []
unfolding sum_of
nothing_left-IsCut total native_max offset h = record {
  covered = λ output. ground (arith, h);
  fit = refl;
  few = omega arith;
}

chunk-IsCut :
    (total native_max offset : ℕ) (chunks : List ChunkSpec)
    → 0 < native_max
    → offset < total
    → let count = min native_max (total - offset) in
      IsCut total native_max (offset + count) chunks
      → IsCut total native_max offset (record { offset = offset; count = count } ∷ chunks)
unfolding sum_of
chunk-IsCut total native_max offset chunks positive more rest = record {
  covered = λ output. ground (arith, more, rest.covered output);
  fit = ground (arith, more, positive, rest.fit);
  few = ground (arith, more, positive, rest.few);
}

-- The loop ends before the fuel does, as a call has an output at least.
chunks_from-IsCut :
    (fuel offset total native_max : ℕ)
    → 0 < native_max
    → total < 256
    → offset ≤ total
    → total ≤ offset + fuel
    → (chunks : List ChunkSpec) × (chunks_from fuel offset total native_max ≡ some chunks)
      × IsCut total native_max offset chunks
unfolding chunks_from
chunks_from-IsCut zero offset total native_max positive small h enough =
    ([], ground (arith, enough), nothing_left-IsCut total native_max offset (omega (arith, enough)))
chunks_from-IsCut (suc fuel) offset total native_max positive small h enough =
    elim (Bool-cases (ltb offset total)) [
      | inr over ↦ (
        [],
        rw (over, chunks_from) refl,
        nothing_left-IsCut total native_max offset (ground (arith, over)),
      )
      | inl more ↦
          let count = min native_max (total - offset) in
          let below : offset + count ≤ total = ground (arith, h) in
          let further : total ≤ offset + count + fuel = ground (arith, more, positive, enough) in
          let next : wrapping_add_u8 offset count ≡ offset + count = ground (arith, below, small) in
          let (rest, made, cut) =
            chunks_from-IsCut fuel (offset + count) total native_max positive small below further in
          (
            record { offset = offset; count = count } ∷ rest,
            rw (more, chunks_from, next, made) refl,
            chunk-IsCut total native_max offset rest positive (ltb→lt offset total more) cut,
          )
    ]

-- The outputs of a request are cut, with as much fuel as there are outputs.
pub chunks-IsCut :
    (total native_max : ℕ)
    → 0 < native_max
    → total < 256
    → (cut : List ChunkSpec) × (chunks total native_max ≡ some cut) × IsCut total native_max 0 cut
unfolding chunks
chunks-IsCut total native_max positive small =
    chunks_from-IsCut total 0 total native_max positive small (omega arith) (omega arith)
