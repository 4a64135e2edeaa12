-- ===== src/Util/Random/Bits.antt =====
-- `Random::next_bool` hands out the bits of a word, the lowest first, and draws the next word when
-- they are used up.
use mamestagram_pp_rs.Prelude.{ℕ, zero, suc, ◌+◌, ◌/◌, ◌^◌, ◌<◌, ◌≡◌, refl, ap, sym, ◌∙◌, arith}
use native.Mathlib.Nat.{div-div-eq-div-mul, div-one, pow-suc}
use mamestagram_pp_rs.Util.Random.{Random, gen_unsigned, next_bool, low_bit}

-- The generator after some calls of `next_bool`.
pub after_bools : ℕ → Random → Random
unfolding next_bool
after_bools zero r = r
after_bools (suc k) r = (next_bool (after_bools k r)).1

next_bool-fresh :
    (r : Random)
    → r.bit_idx ≡ 32
    → let (word, r') = gen_unsigned r in (next_bool r).1 ≡ record r' { bit_buf = word; bit_idx = 1 }
unfolding next_bool
next_bool-fresh r h = rw h refl

next_bool-shifted :
    (r : Random)
    → r.bit_idx < 32
    → (next_bool r).1 ≡ record r { bit_buf = r.bit_buf / 2; bit_idx = r.bit_idx + 1 }
unfolding next_bool
next_bool-shifted r h = ground arith

-- A word drawn, with `k + 1` bits handed out.
abbrev pub drawn : ℕ → Random → Random
drawn k r = record ((gen_unsigned r).1) { bit_buf = (gen_unsigned r).0 / 2 ^ k; bit_idx = k + 1 }

halved : (n k : ℕ) → n / 2 ^ k / 2 ≡ n / 2 ^ suc k
halved n k = div-div-eq-div-mul n (2 ^ k) 2 ∙ ap (λ m. n / m) (sym (pow-suc 2 k))

after_bools-drawn :
    (k : ℕ) (r : Random) → r.bit_idx ≡ 32 → k < 32 → after_bools (suc k) r ≡ drawn k r
unfolding after_bools
after_bools-drawn zero r h b =
    next_bool-fresh r h
    ∙ ap (λ b. record ((gen_unsigned r).1) { bit_buf = b; bit_idx = 1 })
        (sym (div-one ((gen_unsigned r).0)))
after_bools-drawn (suc k) r h b =
    ap (λ s. (next_bool s).1) (after_bools-drawn k r h (omega arith))
    ∙ next_bool-shifted (drawn k r) (omega arith)
    ∙ ap (λ b. record ((gen_unsigned r).1) { bit_buf = b; bit_idx = k + 1 + 1 })
        (halved ((gen_unsigned r).0) k)
    ∙ ap
        (λ i. record ((gen_unsigned r).1) { bit_buf = (gen_unsigned r).0 / 2 ^ suc k; bit_idx = i })
        {y = suc k + 1} (omega arith)

next_bool-low_bit : (r : Random) → (next_bool r).0 ≡ low_bit (next_bool r).1.bit_buf
unfolding next_bool
next_bool-low_bit r = refl

-- From a generator whose bits are used up, 32 calls of `next_bool` return the bits of the one word that
-- `gen_unsigned` draws, the lowest first, and leave the generator as that draw does.
pub next_bool-bits :
    (k : ℕ) (r : Random)
    → r.bit_idx ≡ 32
    → k < 32
    → ((next_bool (after_bools k r)).0 ≡ low_bit ((gen_unsigned r).0 / 2 ^ k))
      × (after_bools (suc k) r ≡ drawn k r)
unfolding after_bools
next_bool-bits k r h b =
    let state : after_bools (suc k) r ≡ drawn k r = after_bools-drawn k r h b in
    (next_bool-low_bit (after_bools k r) ∙ ap (λ s. low_bit s.bit_buf) state, state)
