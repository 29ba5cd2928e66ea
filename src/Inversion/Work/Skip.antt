-- ===== src/Inversion/Work/Skip.antt =====
-- The loop of `spinWork` in a number of multiplications that is logarithmic in its iterations.
use Prim.Native.Nat.add
use native.Mathlib.Nat.{pow-suc}
use systems_postmortems.Prelude.{
  ℕ, zero, suc, ◌+◌, ◌*◌, ◌/◌, ◌%◌, ◌^◌, ◌<◌, ◌≡◌, refl, ◌∙◌, ap, sym, ◌==◌, if◌then◌else◌, arith,
  Bool-cases, inl, inr, subst,
}
use systems_postmortems.Inversion.Work.{multiplier, increment, mix, spin, spin_work, or_one}

-- x ↦ scale * x + shift, modulo 2 ^ 64.
pub record Affine : Type 0 where
  pub scale : ℕ
  pub shift : ℕ

abbrev word : ℕ → ℕ
word x = x % 2 ^ 64

unfoldable pub apply : Affine → ℕ → ℕ
apply f x = word (f.scale * x + f.shift)

-- First `g`, then `f`.
after : Affine → Affine → Affine
after f g = record { scale = word (f.scale * g.scale); shift = word (f.scale * g.shift + f.shift) }

word-mul : (a b : ℕ) → word (a * word b) ≡ word (a * b)
word-mul a b =
    let e : b ≡ 2 ^ 64 * (b / 2 ^ 64) + b % 2 ^ 64 = omega arith in
    omega (arith, ap (λ (t : ℕ). a * t) e)

apply-after : (f g : Affine) (x : ℕ) → apply (after f g) x ≡ apply f (apply g x)
unfolding apply after
apply-after f g x =
    omega (arith, word-mul x (f.scale * g.scale), word-mul f.scale (g.scale * x + g.shift))

abbrev round : Affine
round = record { scale = multiplier; shift = increment }

-- `n` rounds, by the binary digits of `n`.
unfoldable pub skip : ℕ → ℕ → Affine
unfolding after
skip zero n = record { scale = 1; shift = 0 }
skip (suc fuel) n =
    let half = skip fuel (n / 2) in
    let twice = after half half in
    if n == 0
    then record { scale = 1; shift = 0 }
    else (if n % 2 == 0 then twice else after twice round)

mix-apply : (x : ℕ) → mix x ≡ apply round x
unfolding mix apply
mix-apply x = omega arith

spin-suc : (n x : ℕ) → spin (suc n) x ≡ mix (spin n x)
unfolding spin
spin-suc zero x = refl
spin-suc (suc n) x = spin-suc n (mix x)

spin-add : (m n x : ℕ) → spin (m + n) x ≡ spin m (spin n x)
unfolding spin
spin-add zero n x = rw add.zero
spin-add (suc m) n x = rw add.suc (spin-add m n (mix x) ∙ ap (spin m) (spin-suc n x))

spin-lt : (n x : ℕ) → x < 2 ^ 64 → spin n x < 2 ^ 64
unfolding spin
spin-lt zero x small = small
spin-lt (suc n) x small = spin-lt n (mix x) (unfold mix in omega arith)

-- `f` does what `n` rounds do.
Skips : ℕ → Affine → Type 0
Skips n f = (x : ℕ) → x < 2 ^ 64 → spin n x ≡ apply f x

Skips-zero : Skips 0 (record { scale = 1; shift = 0 })
unfolding Skips spin apply
Skips-zero x small = omega arith

Skips-twice : (n : ℕ) (f : Affine) → Skips n f → Skips (n + n) (after f f)
unfolding Skips
Skips-twice n f h x small =
    spin-add n n x
    ∙ h (spin n x) (spin-lt n x small)
    ∙ ap (apply f) (h x small)
    ∙ sym (apply-after f f x)

Skips-suc : (n : ℕ) (f : Affine) → Skips n f → Skips (suc n) (after f round)
unfolding Skips spin
Skips-suc n f h x small =
    h (mix x) (unfold mix in omega arith) ∙ ap (apply f) (mix-apply x) ∙ sym (apply-after f round x)

Skips-skip : (fuel n : ℕ) → n < 2 ^ fuel → Skips n (skip fuel n)
unfolding skip
Skips-skip zero n lt = let e : n ≡ 0 = omega arith in rw e Skips-zero
Skips-skip (suc fuel) n lt =
    let half = Skips-skip fuel (n / 2) (omega (arith, pow-suc 2 fuel)) in
    let twice = Skips-twice (n / 2) (skip fuel (n / 2)) half in
    let f = after (skip fuel (n / 2)) (skip fuel (n / 2)) in
    elim (Bool-cases (n == 0)) [
      | inl z ↦
          let e : 0 ≡ n = ground arith in
          rw z (subst (λ k. Skips k (record { scale = 1; shift = 0 })) e Skips-zero)
      | inr nz ↦ elim (Bool-cases (n % 2 == 0)) [
        | inl even ↦
            let e : n / 2 + n / 2 ≡ n = ground arith in
            rw (nz, even) (subst (λ k. Skips k f) e twice)
        | inr odd ↦
            let e : suc (n / 2 + n / 2) ≡ n = ground arith in
            rw (nz, odd)
              (subst (λ k. Skips k (after f round)) e (Skips-suc (n / 2 + n / 2) f twice))
      ]
    ]

-- For a start below 2 ^ 64 and fewer than 2 ^ fuel rounds, the affine map computed from the binary
-- digits of the number of rounds gives what the loop of `spinWork` gives.
pub spin-skip : (fuel n x : ℕ) → n < 2 ^ fuel → x < 2 ^ 64 → spin n x ≡ apply (skip fuel n) x
unfolding Skips
spin-skip fuel n x lt small = Skips-skip fuel n lt x small

-- So for fewer than 2 ^ fuel iterations and a sink below 2 ^ 64, what `spinWork` leaves in the sink
-- has a closed form: one affine map of the sink with its lowest bit set.
pub spin_work-skip :
    (fuel iterations sink : ℕ)
    → iterations < 2 ^ fuel
    → sink < 2 ^ 64
    → spin_work iterations sink ≡ apply (skip fuel iterations) (or_one sink)
unfolding spin_work
spin_work-skip fuel iterations sink lt small =
    spin-skip fuel iterations (or_one sink) lt (ground arith)
