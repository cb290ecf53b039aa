-- ===== src/Pipe/Tests.antt =====
-- Runs of a pipe, and instances of its theorems.
use operating_systems_projec.Prelude.{
  ◌≤◌, ◌≡◌, refl, true, false, [], ◌∷◌, ◌++◌, ◌==◌, if◌then◌else◌, arith,
}
use operating_systems_projec.Prelude.Kernel.{unlocked}
use operating_systems_projec.Pipe.{Pipe, pipesize, fresh, pipewrite, piperead, pipeclose, drop_byte}
use operating_systems_projec.Pipe.Contents.{count, contents, IsValid}
use operating_systems_projec.Pipe.Refine.{Wrote, Read, pipewrite_lem, piperead_lem}
use operating_systems_projec.Pipe.Traffic.{writes, reads, closes, run, start, step, run_fifo}

-- Two bytes, just before and behind the wrap of the counters.
abbrev wrapped : Pipe
wrapped = record {
  bytes = λ i. if i == 511 then 65 else 66;
  nread = 4_294_967_295;
  nwrite = 1;
  readopen = true;
  writeopen = true;
  woken = [];
}

wrapped-IsValid : IsValid wrapped
wrapped-IsValid = omega arith

contents-wrapped : contents wrapped ≡ 65 ∷ 66 ∷ []
contents-wrapped = refl

run_fifo_example :
    let t = run (start (λ i. 0)) (writes false (1 ∷ 2 ∷ []) ∷ reads false 1 ∷ closes true ∷ []) in
    (t.sent ≡ t.received ++ contents t.pipe) × (count t.pipe ≤ pipesize)
run_fifo_example = run_fifo (λ i. 0) (writes false (1 ∷ 2 ∷ []) ∷ reads false 1 ∷ closes true ∷ [])

fifo_runs :
    let t = run (start (λ i. 0)) (writes false (1 ∷ 2 ∷ []) ∷ reads false 1 ∷ closes true ∷ []) in
    (t.sent ≡ 1 ∷ 2 ∷ []) × (t.received ≡ 1 ∷ []) × (contents t.pipe ≡ 2 ∷ [])
unfolding run start step fresh pipewrite piperead pipeclose drop_byte
fifo_runs = (refl, refl, refl)

pipewrite_lem_example :
    Wrote 3 false wrapped 510 (1 ∷ 2 ∷ 3 ∷ []) (pipewrite false (1 ∷ 2 ∷ 3 ∷ []) (unlocked wrapped))
pipewrite_lem_example = pipewrite_lem false (1 ∷ 2 ∷ 3 ∷ []) wrapped wrapped-IsValid

piperead_lem_example : Read false 5 wrapped (piperead false 5 (unlocked wrapped))
piperead_lem_example = piperead_lem false 5 wrapped wrapped-IsValid
