-- ===== src/Any/Gradual/Nth.antt =====
-- The gradual calculation of any mode: `nth` does in one go what `next` does object by object.
use mamestagram_pp_rs.Prelude.{
  ℕ, ◌-◌, ◌<◌, ◌≡◌, refl, sym, ap, ◌∙◌, min, Option, none, some, length, ◌>>=◌, next_after,
  next_after-item,
}
use mamestagram_pp_rs.F64.{F64}
use mamestagram_pp_rs.Any.Gradual.{
  DifficultyAttributes, Modes, GradualDifficulty, osu_gradual, taiko_gradual, catch_gradual,
  mania_gradual, map_item, next, nth, len,
}
use mamestagram_pp_rs.Osu.Gradual as Osu
use mamestagram_pp_rs.Osu.Gradual.Nth as OsuNth
use mamestagram_pp_rs.Taiko.Gradual.Hits.{called}
use mamestagram_pp_rs.Taiko.Gradual.Nth as TaikoNth
use mamestagram_pp_rs.Catch.Gradual as Catch
use mamestagram_pp_rs.Catch.Gradual.Nth as CatchNth
use mamestagram_pp_rs.Mania.Gradual as Mania
use mamestagram_pp_rs.Mania.Gradual.Nth as ManiaNth

map_item-kept :
    {S T I J : Type 0} (item : I → J) (state : S → T) (r : Option I × S)
    → (map_item item state r).1 ≡ state r.1
unfolding map_item
map_item-kept item state (none, s) = refl
map_item-kept item state (some i, s) = refl

module _ {Content Mods A R : Type 0} ⦃f : F64 A⦄ (modes : Modes Content Mods A R) where
  -- The state is one of its mode's, where osu!taiko wants a difficulty object.
  abbrev pub IsValid : GradualDifficulty modes → Type 0
  IsValid (osu_gradual s) = OsuNth.IsValid s
  IsValid (taiko_gradual s) = 0 < length s.diff_objects
  IsValid (catch_gradual s) = CatchNth.IsValid s
  IsValid (mania_gradual s) = ManiaNth.IsValid s

  -- `nth` of any mode is the call of `next` after the given number of others, or after one less than `len`
  -- if that is less. There are as many counts, flags and difficulty objects as the mode's `new` makes and
  -- no more objects passed, or a difficulty object in osu!taiko.
  pub nth-next_after :
      (s : GradualDifficulty modes) (n : ℕ)
      → IsValid s
      → nth modes s n ≡ next_after (next modes) (min n (len modes s - 1)) s
  unfolding nth len next
  nth-next_after (osu_gradual s) n v =
      ap (λ q. q >>= λ r. some (map_item DifficultyAttributes.osu osu_gradual r))
        (OsuNth.nth-next_after_osu modes.osu s n v)
      ∙ sym (
          next_after-item (Osu.next modes.osu) (next modes)
            (map_item DifficultyAttributes.osu osu_gradual) osu_gradual _ s (λ t. refl)
            (map_item-kept DifficultyAttributes.osu osu_gradual))
  nth-next_after (taiko_gradual s) n v =
      ap (λ q. q >>= λ r. some (map_item DifficultyAttributes.taiko taiko_gradual r))
        (TaikoNth.nth-next_after_taiko modes.taiko s n v)
      ∙ sym (
          next_after-item (called modes.taiko) (next modes)
            (map_item DifficultyAttributes.taiko taiko_gradual) taiko_gradual _ s (λ t. refl)
            (map_item-kept DifficultyAttributes.taiko taiko_gradual))
  nth-next_after (catch_gradual s) n v =
      ap (λ q. q >>= λ r. some (map_item DifficultyAttributes.catch catch_gradual r))
        (CatchNth.nth-next_after_catch modes.catch s n v)
      ∙ sym (
          next_after-item (Catch.next modes.catch) (next modes)
            (map_item DifficultyAttributes.catch catch_gradual) catch_gradual _ s (λ t. refl)
            (map_item-kept DifficultyAttributes.catch catch_gradual))
  nth-next_after (mania_gradual s) n v =
      ap (λ q. q >>= λ r. some (map_item DifficultyAttributes.mania mania_gradual r))
        (ManiaNth.nth-next_after_mania modes.mania s n v)
      ∙ sym (
          next_after-item (Mania.next modes.mania) (next modes)
            (map_item DifficultyAttributes.mania mania_gradual) mania_gradual _ s (λ t. refl)
            (map_item-kept DifficultyAttributes.mania mania_gradual))
