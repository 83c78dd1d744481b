-- ===== src/GoChan.antt =====
-- Go's buffered channels: the values in flight, the oldest first.
use pontifex.Base.{ℕ, Bool, false, true, List, [], ◌∷◌, ◌++◌, if◌then◌else◌, not, ◌&&◌, ltb, length}

pub record Chan (A : Type 0) : Type 0 where
  pub capacity : ℕ
  pub buffer : List A
  pub closed : Bool

-- `make(chan A, capacity)`
abbrev pub make_chan : {A : Type 0} → ℕ → Chan A
make_chan capacity = record { capacity = capacity; buffer = []; closed = false }

-- What `<-c` finds: a value, the zero value of a closed channel, or nothing yet.
pub data Ready (A : Type 0) : Type 0 where
  value : A → Ready A
  drained waiting : Ready A

module _ {A : Type 0} where
  unfoldable pub ready : Chan A → Ready A
  ready c = elim c.buffer [ x ∷ _ ↦ value x | [] ↦ if c.closed then drained else waiting ]

  -- The channel after a receive.
  unfoldable pub taken : Chan A → Chan A
  taken c = elim c.buffer [ _ ∷ xs ↦ record c { buffer = xs } | [] ↦ c ]

  -- A send goes through at once: the channel is open and its buffer is not full.
  unfoldable pub has_room : Chan A → Bool
  has_room c = not c.closed && ltb (length c.buffer) c.capacity

  abbrev pub sent : A → Chan A → Chan A
  sent x c = record c { buffer = c.buffer ++ x ∷ [] }

  abbrev pub close : Chan A → Chan A
  close c = record c { closed = true }
