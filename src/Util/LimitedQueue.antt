-- ===== src/Util/LimitedQueue.antt =====
-- src/util/limited_queue.rs: a queue of at most `N` elements over an array of `N`, which forgets its
-- oldest element when it is full. `usize` sums stay below 2 * N and cannot wrap.
pub mod Contents
use mamestagram_pp_rs.Prelude.{
  ℕ, ◌+◌, ◌-◌, ◌*◌, ◌%◌, Bool, true, false, Option, none, some, List, [], ltb, ◌==◌, of_bool, set,
  get_elem?, take, drop, replicate, if◌then◌else◌,
}

pub record LimitedQueue {ℓ} (T : Type ℓ) : Type ℓ where
  pub queue : List T
  pub end : ℕ
  pub len : ℕ

module _ {ℓ} {T : Type ℓ} (N : ℕ) where
  -- `T::default()` is an argument. `N - 1` needs `N` to be positive.
  unfoldable pub default : T → LimitedQueue T
  default t = record { end = N - 1; queue = replicate N t; len = 0 }

  unfoldable pub push : LimitedQueue T → T → LimitedQueue T
  push q elem =
      let end = (q.end + 1) % N in
      record { queue = set q.queue end elem; end = end; len = q.len + of_bool (ltb q.len N) }

  unfoldable pub is_full : LimitedQueue T → Bool
  is_full q = q.len == N

  unfoldable pub is_empty : LimitedQueue T → Bool
  is_empty q = q.len == 0

  unfoldable pub last : LimitedQueue T → Option T
  unfolding is_empty
  last q = if is_empty q then none else get_elem? q.queue q.end

  -- `[end + 1..N]` and `[0..=end]`, or `[]` and `[0..len]`
  unfoldable pub as_slices : LimitedQueue T → List T × List T
  unfolding is_full
  as_slices q =
      if is_full q
      then (drop (q.end + 1) q.queue, take (q.end + 1) q.queue)
      else ([], take q.len q.queue)

  -- The index operator; `none` is a panic.
  unfoldable pub index : LimitedQueue T → ℕ → Option T
  index q idx = get_elem? q.queue ((idx + of_bool (q.len == N) * (q.end + 1)) % N)
