-- ===== src/Node/Queue/Tests.antt =====
-- The command queue at concrete commands.
use rsmicro.Prelude.{ℕ, ◌≡◌, refl, some, [], ◌∷◌, set, replicate, arith}
use rsmicro.Prelude.Int.{pos}
use rsmicro.Node.Queue.{Command, Ring, capacity, zeroed, push, pop}
use rsmicro.Node.Queue.Refine.{
  IsValid, contents, enqueue, dequeue, push-IsValid, pop-IsValid, push_refines, pop_refines, give,
  take, run, run_fifo, run_refines,
}

abbrev command : ℕ → Command
command n = record { type = 54; request_id = n; tag_id = 1; value = pos 1 }

-- two commands, round the end of the storage
abbrev wrapped : Ring
wrapped = record {
  items = set (set (replicate capacity zeroed) 63 (command 1)) 0 (command 2);
  head = 63;
  count = 2;
  high_water = 5;
}

wrapped-IsValid : IsValid wrapped
wrapped-IsValid = omega arith

contents-wrapped : contents wrapped ≡ record { waiting = command 1 ∷ command 2 ∷ []; longest = 5 }
contents-wrapped = refl

pop_twice : (pop (pop wrapped).1).0 ≡ some (command 2)
unfolding pop
pop_twice = refl

push-IsValid_example : IsValid (push wrapped (command 3)).1
push-IsValid_example = push-IsValid wrapped (command 3) wrapped-IsValid

pop-IsValid_example : IsValid (pop wrapped).1
pop-IsValid_example = pop-IsValid wrapped wrapped-IsValid

push_refines_example :
    let (done, q) = push wrapped (command 3) in
    (done, contents q) ≡ enqueue (contents wrapped) (command 3)
push_refines_example = push_refines wrapped (command 3) wrapped-IsValid

pop_refines_example : let (out, q) = pop wrapped in (out, contents q) ≡ dequeue (contents wrapped)
pop_refines_example = pop_refines wrapped wrapped-IsValid

run_refines_example :
    run wrapped (take ∷ give (command 3) ∷ take ∷ take ∷ take ∷ [])
    ≡ run_fifo (contents wrapped) (take ∷ give (command 3) ∷ take ∷ take ∷ take ∷ [])
run_refines_example =
    run_refines (take ∷ give (command 3) ∷ take ∷ take ∷ take ∷ []) wrapped wrapped-IsValid
