-- ===== src/Node/Queue/Refine.antt =====
-- A ring in its range behaves as the bounded FIFO of the commands that it holds.
use rsmicro.Prelude.{
  ℕ, zero, suc, ◌+◌, ◌-◌, ◌%◌, ◌≤◌, ◌<◌, ◌≡◌, ◌≢◌, refl, ap, ap₂, ◌==◌, if◌then◌else◌, Bool, true,
  false, List, [], ◌∷◌, ◌++◌, Option, none, some, arith, length, get_elem?, set, length-set, get_or,
}
use Prim.Native.Nat.{max}
use rsmicro.Node.Queue.{Command, Ring, capacity, zeroed, init, push, pop}

-- The abstract queue, oldest command first, beside the longest that it has been.
pub record Fifo : Type 0 where
  pub waiting : List Command
  pub longest : ℕ

unfoldable pub enqueue : Fifo → Command → Bool × Fifo
enqueue f c = if length f.waiting == capacity then (false, f) else (
  true,
  record { waiting = f.waiting ++ c ∷ []; longest = max f.longest (length f.waiting + 1) },
)

abbrev pub take_first : List Command → ℕ → Option Command × Fifo
take_first [] n = (none, record { waiting = []; longest = n })
take_first (c ∷ cs) n = (some c, record { waiting = cs; longest = n })

unfoldable pub dequeue : Fifo → Option Command × Fifo
dequeue f = take_first f.waiting f.longest

-- What every reachable ring satisfies.
pub record IsValid (q : Ring) : Type 0 where
  pub storage : length q.items ≡ capacity
  pub head_in : q.head < capacity
  pub count_in : q.count ≤ capacity
  pub high_water_in : q.high_water ≤ capacity
  pub high_water_ge : q.count ≤ q.high_water

-- the `n` commands from index `h` on, going round at the capacity
abbrev pub window : List Command → ℕ → ℕ → List Command
window items h zero = []
window items h (suc n) = get_or items h zeroed ∷ window items ((h + 1) % capacity) n

abbrev pub contents : Ring → Fifo
contents q = record { waiting = window q.items q.head q.count; longest = q.high_water }

length-window : (items : List Command) (h n : ℕ) → length (window items h n) ≡ n
length-window items h zero = refl
length-window items h (suc n) = ap suc (length-window items ((h + 1) % capacity) n)

get_or-set_self :
    (xs : List Command) (i : ℕ) (v d : Command) → i < length xs → get_or (set xs i v) i d ≡ v
get_or-set_self [] i v d h = absurd (omega arith)
get_or-set_self (x ∷ xs) zero v d h = refl
get_or-set_self (x ∷ xs) (suc i) v d h = get_or-set_self xs i v d (omega arith)

get_or-set_ne :
    (xs : List Command) (i j : ℕ) (v d : Command) → i ≢ j → get_or (set xs i v) j d ≡ get_or xs j d
get_or-set_ne [] i j v d h = refl
get_or-set_ne (x ∷ xs) zero zero v d h = absurd (h refl)
get_or-set_ne (x ∷ xs) zero (suc j) v d h = refl
get_or-set_ne (x ∷ xs) (suc i) zero v d h = refl
get_or-set_ne (x ∷ xs) (suc i) (suc j) v d h = get_or-set_ne xs i j v d (λ e. h (ap suc e))

get_elem?-get_or :
    (xs : List Command) (i : ℕ) (d : Command)
    → i < length xs
    → get_elem? xs i ≡ some (get_or xs i d)
get_elem?-get_or [] i d h = absurd (omega arith)
get_elem?-get_or (x ∷ xs) zero d h = refl
get_elem?-get_or (x ∷ xs) (suc i) d h = get_elem?-get_or xs i d (omega arith)

-- Writing just past a window extends it by that command.
window-set :
    (items : List Command) (x : Command) (n h i : ℕ)
    → length items ≡ capacity
    → h < capacity
    → n < capacity
    → i ≡ (h + n) % capacity
    → window (set items i x) h (suc n) ≡ window items h n ++ x ∷ []
window-set items x zero h i s hh hn e =
    let e' : i ≡ h = omega arith in
    rw e' (ap₂ ◌∷◌ (get_or-set_self items h x zeroed (omega arith)) refl)
window-set items x (suc n) h i s hh hn e =
    ap₂ ◌∷◌ (get_or-set_ne items i h x zeroed (omega arith))
      (window-set items x n ((h + 1) % capacity) i s (omega arith) (omega arith) (omega arith))

-- A new queue is valid and empty.
pub init-IsValid : IsValid init × (contents init ≡ record { waiting = []; longest = 0 })
unfolding init
init-IsValid = (omega arith, refl)

-- A push keeps the queue valid.
pub push-IsValid : (q : Ring) (c : Command) → IsValid q → IsValid (push q c).1
unfolding push
push-IsValid q c v = ground (arith, length-set q.items ((q.head + q.count) % capacity) c)

-- A pop keeps the queue valid.
pub pop-IsValid : (q : Ring) → IsValid q → IsValid (pop q).1
unfolding pop
pop-IsValid q v = ground arith

-- A push answers as the bounded FIFO does and leaves its contents: the command is refused exactly
-- when 64 are waiting, and the high-water mark is the longest that the queue has been.
pub push_refines :
    (q : Ring) (c : Command)
    → IsValid q
    → let (done, q') = push q c in (done, contents q') ≡ enqueue (contents q) c
unfolding push enqueue
push_refines q c v = ground (
  arith,
  length-window q.items q.head q.count,
  window-set q.items c q.count q.head ((q.head + q.count) % capacity),
)

window_of_ne_zero :
    (items : List Command) (h n : ℕ)
    → n ≢ 0
    → window items h n ≡ get_or items h zeroed ∷ window items ((h + 1) % capacity) (n - 1)
window_of_ne_zero items h zero p = absurd (p refl)
window_of_ne_zero items h (suc n) p = ap (λ k. window items h (suc k)) (omega arith)

-- A pop gives the oldest command and leaves the others, or none when the queue is empty.
pub pop_refines :
    (q : Ring) → IsValid q → let (out, q') = pop q in (out, contents q') ≡ dequeue (contents q)
unfolding pop dequeue
pop_refines q v =
    ground (arith, window_of_ne_zero q.items q.head q.count, get_elem?-get_or q.items q.head zeroed)

-- A call of the queue's client, and what it sees of each.
pub data Call : Type 0 where
  give : Command → Call
  take : Call

pub data Reply : Type 0 where
  gave : Bool → Reply
  took : Option Command → Reply

unfoldable pub run : Ring → List Call → List Reply
run q [] = []
run q (give c ∷ calls) = let (done, q') = push q c in gave done ∷ run q' calls
run q (take ∷ calls) = let (out, q') = pop q in took out ∷ run q' calls

unfoldable pub run_fifo : Fifo → List Call → List Reply
run_fifo f [] = []
run_fifo f (give c ∷ calls) = let (done, f') = enqueue f c in gave done ∷ run_fifo f' calls
run_fifo f (take ∷ calls) = let (out, f') = dequeue f in took out ∷ run_fifo f' calls

-- No sequence of pushes and pops tells a valid ring from the bounded FIFO of its contents: every
-- reply is the same.
pub run_refines :
    (calls : List Call) (q : Ring) → IsValid q → run q calls ≡ run_fifo (contents q) calls
unfolding run run_fifo
run_refines [] q v = refl
run_refines (give c ∷ calls) q v =
    rw (run_refines calls (push q c).1 (push-IsValid q c v), ← push_refines q c v)
run_refines (take ∷ calls) q v =
    rw (run_refines calls (pop q).1 (pop-IsValid q v), ← pop_refines q v)
