-- ===== src/Tests/Util.antt =====
-- Examples for src/util and src/any/score_state.rs.
use Prim.{tt}
use mamestagram_pp_rs.Prelude.{ℕ, ◌≡◌, ◌/◌, ◌^◌, refl, some, [], ◌∷◌, ◌++◌, arith, get_elem?, drop}
use mamestagram_pp_rs.F64.{InUnit}
use mamestagram_pp_rs.F64.Model.{Approx, approx_f64, Approx-IsIeee}
use mamestagram_pp_rs.Any.ScoreState.{ScoreState}
use mamestagram_pp_rs.Osu.ScoreState.{OsuScoreState}
use mamestagram_pp_rs.Any.ScoreState.Modes.{accuracies-unit}
use mamestagram_pp_rs.Taiko.Performance.{TaikoScoreState}
use mamestagram_pp_rs.Catch.Performance.{CatchScoreState}
use mamestagram_pp_rs.Mania.ScoreState.{ManiaScoreState}
use mamestagram_pp_rs.Taiko.ScoreState as TaikoState
use mamestagram_pp_rs.Catch.ScoreState as CatchState
use mamestagram_pp_rs.Mania.ScoreState as ManiaState
use mamestagram_pp_rs.Util.LimitedQueue.{LimitedQueue, push, index}
use mamestagram_pp_rs.Util.LimitedQueue.Contents.{
  IsValid, to_list, last_of, push-to_list, index-to_list,
}
use mamestagram_pp_rs.Util.Random.{ℤ, Random, gen_unsigned, next_bool, low_bit}
use mamestagram_pp_rs.Util.Random as Generator
use mamestagram_pp_rs.Util.Random.Bits.{after_bools, drawn, next_bool-bits}
use mamestagram_pp_rs.Util.StrainsVec.{
  StrainsVec, StrainsIter, retain_non_zero, into_vec, iter, next, is_positive,
}
use mamestagram_pp_rs.Util.StrainsVec as Strains
use mamestagram_pp_rs.Util.StrainsVec.Contents as StrainsContents
use mamestagram_pp_rs.Util.StrainsVec.Contents.{expand, clamp, push-expand}
use mamestagram_pp_rs.Util.StrainsVec.Retain.{non_zeros, retain_non_zero-contents}
use mamestagram_pp_rs.Util.StrainsVec.IntoVec.{into_vec-expand}
use mamestagram_pp_rs.Util.StrainsVec.Iterator.{remaining, IterIsValid, next-remaining}

abbrev full : LimitedQueue ℕ
full = record { queue = 4 ∷ 5 ∷ 2 ∷ 3 ∷ []; end = 1; len = 4 }

full-IsValid : IsValid 4 full
full-IsValid = record {
  storage = refl;
  end_in = omega arith;
  len_in = omega arith;
  next_free = λ h. absurd (omega (arith, h));
}

push-to_list_example : to_list 4 (push 4 full 6) ≡ last_of 4 (to_list 4 full ++ 6 ∷ [])
push-to_list_example = push-to_list 4 full 6 full-IsValid

index-to_list_example : index 4 full 2 ≡ get_elem? (to_list 4 full) 2
index-to_list_example = index-to_list 4 full 2 full-IsValid (omega arith)

-- The bits of 1, two zeros, the bits of 2.
abbrev strains : StrainsVec
strains = record {
  inner = 4607182418800017408 ∷ 9223372036854775810 ∷ 4611686018427387904 ∷ [];
  len = 4;
}

strains-IsValid : StrainsContents.IsValid strains
strains-IsValid = record {
  words = (omega arith, (omega arith, (omega arith, tt)));
  positive = (omega arith, (omega arith, (omega arith, tt)));
  len_is = refl;
}

push-expand_example : expand (Strains.push strains 0).inner ≡ expand strains.inner ++ clamp 0 ∷ []
push-expand_example = push-expand strains 0 strains-IsValid (omega arith)

retain_non_zero-contents_example :
    (expand (retain_non_zero strains).inner ≡ non_zeros (expand strains.inner))
    × ((retain_non_zero strains).len ≡ 4)
retain_non_zero-contents_example = retain_non_zero-contents strains strains-IsValid

into_vec-expand_example : into_vec strains ≡ some (expand strains.inner)
into_vec-expand_example = into_vec-expand strains

abbrev walked : StrainsIter
walked = record { inner = 4611686018427387904 ∷ []; curr = some 9223372036854775810; len = 3 }

walked-IsValid : IterIsValid walked
walked-IsValid = record {
  words = (omega arith, tt);
  word = omega arith;
  len_is = refl;
  in_range = omega arith;
  ended = λ h. absurd (ground (arith, h));
}

next-remaining_example :
    let (o, it') = next walked in
    (o ≡ get_elem? (remaining walked) 0)
    × (remaining it' ≡ drop 1 (remaining walked))
    × IterIsValid it'
next-remaining_example = next-remaining walked walked-IsValid

abbrev score : ScoreState
score = record {
  max_combo = 100;
  osu_large_tick_hits = 0;
  osu_small_tick_hits = 0;
  slider_end_hits = 0;
  n_geki = 1;
  n_katu = 2;
  n300 = 3;
  n100 = 4;
  n50 = 5;
  misses = 6;
}

abbrev taiko_score : TaikoScoreState
taiko_score = record { max_combo = 100; n300 = 90; n100 = 8; misses = 2 }

abbrev catch_score : CatchScoreState
catch_score = record {
  max_combo = 100;
  fruits = 90;
  droplets = 8;
  tiny_droplets = 5;
  tiny_droplet_misses = 1;
  misses = 2;
}

abbrev mania_score : ManiaScoreState
mania_score = record { n320 = 50; n300 = 40; n200 = 3; n100 = 2; n50 = 1; misses = 4 }

accuracies-unit_example :
    InUnit (TaikoState.accuracy {A = Approx} taiko_score)
    × InUnit (CatchState.accuracy {A = Approx} catch_score)
    × InUnit (ManiaState.accuracy {A = Approx} mania_score)
accuracies-unit_example =
    accuracies-unit Approx-IsIeee taiko_score catch_score mania_score (omega arith) (omega arith)
      (omega arith)

abbrev osu_score : OsuScoreState
osu_score = record {
  max_combo = 9;
  large_tick_hits = 1;
  small_tick_hits = 2;
  slider_end_hits = 3;
  n300 = 4;
  n100 = 5;
  n50 = 6;
  misses = 7;
}

abbrev seeded : Random
unfolding Generator.new
seeded = Generator.new (ℤ.pos 1337)

run-seeded_negative : (Generator.new (ℤ.negsuc 0)).x ≡ 4_294_967_295
unfolding Generator.new Generator.as_u32
run-seeded_negative = refl

run-seeded : (gen_unsigned seeded).0 ≡ 274_941_776
unfolding gen_unsigned Generator.new
run-seeded = refl

next_bool-bits_example :
    ((next_bool (after_bools 5 seeded)).0 ≡ low_bit ((gen_unsigned seeded).0 / 2 ^ 5))
    × (after_bools 6 seeded ≡ drawn 5 seeded)
unfolding Generator.new
next_bool-bits_example = next_bool-bits 5 seeded refl (omega arith)
