-- ===== src/Cache/Bounded.antt =====
-- `TimeAndSizeBoundedCache` (backend/src/cache/TimeAndSizeBoundedCache.h): a linked list of
-- entries, most recently used first, and a map from keys to iterators into that list.
--
-- An iterator is the address of its list node. A step through an iterator whose node is gone has
-- undefined behaviour, and is `none` here, for the whole method. The map is a function. A call of
-- `steady_clock::now()` is an argument `now`, in nanoseconds. The log lines are left out.
use native.Mathlib.Decide.{ℕ_discrete}
use currency_converter_demo.Base.{
  ℕ, ◌+◌, ◌*◌, ◌/◌, ℤ, pos, negsuc, sub_ℕ, ltb, ltb_ℤ, ◌==◌, if◌then◌else◌, Bool, true, false,
  Option, none, some, List, [], ◌∷◌, length, Str, str_dec, ite,
}

infixl 5 ◌>>=◌
abbrev pub ◌>>=◌ {ℓ κ} : {A : Type ℓ} {B : Type κ} → Option A → (A → Option B) → Option B
none >>= f = none
some a >>= f = f a

pub record Entry {ℓ} (V : Type ℓ) : Type ℓ where
  pub key : Str
  pub value : V
  pub inserted_at : ℕ

-- A node of the `std::list`.
pub record Node {ℓ} (V : Type ℓ) : Type ℓ where
  pub addr : ℕ
  pub entry : Entry V

pub record Cache {ℓ} (V : Type ℓ) : Type ℓ where
  pub max_age : ℤ
  pub max_elements : ℕ
  pub entries : List (Node V)
  pub index : Str → Option ℕ
  -- the address that the next node is given
  pub next_addr : ℕ

-- A whole number of minutes, in nanoseconds.
abbrev pub minute : ℕ
minute = 60_000_000_000

abbrev pub to_nanoseconds : ℤ → ℤ
to_nanoseconds (pos m) = pos (m * minute)
to_nanoseconds (negsuc m) = sub_ℕ 0 ((m + 1) * minute)

unfoldable pub is_expired : ℤ → ℕ → ℕ → Bool
is_expired max_age now inserted_at = ltb_ℤ (to_nanoseconds max_age) (sub_ℕ now inserted_at)

-- The constructor. `none` is `std::invalid_argument`.
unfoldable pub init {ℓ} : {V : Type ℓ} → ℤ → ℕ → Option (Cache V)
init max_age max_elements =
    if max_elements == 0
    then none
    else some (record {
      max_age = max_age;
      max_elements = max_elements;
      entries = [];
      index = λ _. none;
      next_addr = 0;
    })

-- `index_.erase(key)` and `index_[key] = it`.
unfoldable pub index_erase : (Str → Option ℕ) → Str → Str → Option ℕ
index_erase index key j = ite (str_dec j key) none (index j)

unfoldable pub index_set : (Str → Option ℕ) → Str → ℕ → Str → Option ℕ
index_set index key it j = ite (str_dec j key) (some it) (index j)

module _ {ℓ} {V : Type ℓ} where
  -- `*it`
  unfoldable pub deref : ℕ → List (Node V) → Option (Entry V)
  deref it [] = none
  deref it (n ∷ ns) = ite (ℕ_discrete n.addr it) (some n.entry) (deref it ns)

  -- `entries_.erase(it)`
  unfoldable pub unlink : ℕ → List (Node V) → Option (List (Node V))
  unlink it [] = none
  unlink it (n ∷ ns) =
      ite (ℕ_discrete n.addr it) (some ns) (unlink it ns >>= λ rest. some (n ∷ rest))

  -- `entries_.splice(entries_.begin(), entries_, it)`: the node keeps its address.
  unfoldable pub splice_front : ℕ → List (Node V) → Option (List (Node V))
  unfolding deref unlink
  splice_front it ns =
      deref it ns >>= λ e. unlink it ns >>= λ rest. some (record { addr = it; entry = e } ∷ rest)

  -- `entries_.back()`
  unfoldable pub back : List (Node V) → Option (Entry V)
  back [] = none
  back (n ∷ []) = some n.entry
  back (n ∷ m ∷ ns) = back (m ∷ ns)

  -- `entries_.pop_back()`
  unfoldable pub pop_back : List (Node V) → Option (List (Node V))
  pop_back [] = none
  pop_back (n ∷ []) = some []
  pop_back (n ∷ m ∷ ns) = pop_back (m ∷ ns) >>= λ rest. some (n ∷ rest)

  -- The body of `get` once the key is found.
  unfoldable pub get_at : Cache V → ℕ → Str → ℕ → Option (Option V × Cache V)
  unfolding is_expired splice_front index_erase
  get_at c now key it = deref it c.entries >>= λ e.
      if is_expired c.max_age now e.inserted_at
      then (unlink it c.entries >>= λ rest.
          some (none, record c { entries = rest; index = index_erase c.index key }))
      else (splice_front it c.entries >>= λ moved.
          deref it moved >>= λ e'. some (some e'.value, record c { entries = moved }))

  unfoldable pub get : Cache V → ℕ → Str → Option (Option V × Cache V)
  unfolding get_at
  get c now key = elim (c.index key) [ none ↦ some (none, c) | some it ↦ get_at c now key it ]

  -- The first `if` of `put`: an entry that the key already has goes.
  unfoldable pub drop_old : Cache V → Str → Option (Cache V)
  unfolding index_erase unlink
  drop_old c key = elim (c.index key) [
    | none ↦ some c
    | some it ↦ unlink it c.entries >>= λ rest.
        some (record c { entries = rest; index = index_erase c.index key })
  ]

  -- `push_front`, and the iterator to it in the map.
  unfoldable pub push_front : Cache V → ℕ → Str → V → Cache V
  unfolding index_set
  push_front c now key value = record c {
    entries =
        record {
          addr = c.next_addr;
          entry = record { key = key; value = value; inserted_at = now };
        }
        ∷ c.entries;
    index = index_set c.index key c.next_addr;
    next_addr = c.next_addr + 1;
  }

  -- The last `if` of `put`.
  unfoldable pub evict : Cache V → Option (Cache V)
  unfolding index_erase back pop_back
  evict c =
      if ltb c.max_elements (length c.entries)
      then (back c.entries >>= λ oldest. pop_back c.entries >>= λ rest.
          some (record c { entries = rest; index = index_erase c.index oldest.key }))
      else some c

  unfoldable pub put : Cache V → ℕ → Str → V → Option (Cache V)
  unfolding drop_old push_front evict
  put c now key value = drop_old c key >>= λ c'. evict (push_front c' now key value)

  -- The loop of `sweepExpired`. Each round reads the clock: `clock i` is the reading of round `i`.
  unfoldable pub sweep_loop :
      ℤ → (ℕ → ℕ) → ℕ → List (Node V) → (Str → Option ℕ) → List (Node V) × (Str → Option ℕ)
  unfolding is_expired index_erase
  sweep_loop max_age clock i [] index = ([], index)
  sweep_loop max_age clock i (n ∷ ns) index =
      elim (is_expired max_age (clock i) n.entry.inserted_at) [
        | true ↦ sweep_loop max_age clock (i + 1) ns (index_erase index n.entry.key)
        | false ↦
            let (rest, index') = sweep_loop max_age clock (i + 1) ns index in (n ∷ rest, index')
      ]

  unfoldable pub sweep_expired : Cache V → (ℕ → ℕ) → Cache V
  unfolding sweep_loop
  sweep_expired c clock =
      let (rest, index) = sweep_loop c.max_age clock 0 c.entries c.index in
      record c { entries = rest; index = index }

-- How long the sweeper waits between two sweeps, in minutes. Division of an integer rounds towards
-- zero, and a limit below two minutes gives one minute.
unfoldable pub sweep_interval : ℤ → ℕ
sweep_interval (pos m) = if ltb 1 (m / 2) then m / 2 else 1
sweep_interval (negsuc m) = 1
