-- ===== src/Node/Queue.antt =====
-- runtime/node/src/command_queue.c and rsm_node_queue.h: a bounded ring of commands.
pub mod Refine
mod Tests
use rsmicro.Prelude.{
  ℕ, ◌+◌, ◌-◌, ◌%◌, ◌==◌, ltb, if◌then◌else◌, Bool, true, false, List, Option, none, some,
  replicate, get_elem?, set,
}
use rsmicro.Prelude.Int.{ℤ, pos}

-- RSM_NODE_QUEUE_CAPACITY
abbrev pub capacity : ℕ
capacity = 64

-- `rsm_node_command_t`
pub record Command : Type 0 where
  pub type : ℕ
  pub request_id : ℕ
  pub tag_id : ℕ
  pub value : ℤ

-- `rsm_node_queue_t`
pub record Ring : Type 0 where
  pub items : List Command
  pub head : ℕ
  pub count : ℕ
  pub high_water : ℕ

abbrev pub zeroed : Command
zeroed = record { type = 0; request_id = 0; tag_id = 0; value = pos 0 }

-- `memset(q, 0, sizeof *q)`
unfoldable pub init : Ring
init = record { items = replicate capacity zeroed; head = 0; count = 0; high_water = 0 }

-- The result is the returned int, 1 or 0. No size_t sum wraps here: both terms are at most 64.
unfoldable pub push : Ring → Command → Bool × Ring
push q c = if q.count == capacity then (false, q) else (
  true,
  record q {
    items = set q.items ((q.head + q.count) % capacity) c;
    count = q.count + 1;
    high_water = if ltb q.high_water (q.count + 1) then q.count + 1 else q.high_water;
  },
)

-- `none` is the return of 0, with `*c` left alone.
unfoldable pub pop : Ring → Option Command × Ring
pop q = if q.count == 0 then (none, q) else (
  get_elem? q.items q.head,
  record q { head = (q.head + 1) % capacity; count = q.count - 1 },
)
