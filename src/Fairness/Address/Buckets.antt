-- ===== src/Fairness/Address/Buckets.antt =====
-- Which addresses share a subnet, bucketIPv4 and bucketIPv6 of fairness/classify.go.
use Prim.Native.String.{◌++◌, ◌∷◌}
use text.Mathlib.TextLemmas.{append_cancel_right}
use mathlib.Core.Option.{some-injective}
use caddy_fair_admission.Prelude.{
  ℕ, ◌-◌, ◌*◌, ◌/◌, ◌%◌, ◌^◌, ◌<◌, ◌≡◌, ◌↔◌, ◌⊎◌, inl, inr, sym, ap, ◌∙◌, some, arith, get_or, [],
  ◌∷◌,
}
use caddy_fair_admission.Prelude.Int.{pos, pos_part}
use caddy_fair_admission.GoText.{split, format_uint, IsFree, split-append, split-free}
use caddy_fair_admission.GoText.Numbers.{
  format_int, parse_int, format_int-IsFree, parse_int-format_int,
}
use caddy_fair_admission.Fairness.Config.{FairnessConfig, ipv6_prefix_length}
use caddy_fair_admission.Fairness.Address.{
  v4, v6, NetText, format_v4, masked, bucket_ipv4, bucket_ipv6,
}

uint-IsFree : (n : ℕ) → IsFree "." (format_uint n)
unfolding format_uint format_int
uint-IsFree n = format_int-IsFree "." n (omega arith)

uint_injective : (m n : ℕ) → m < 2 ^ 63 → n < 2 ^ 63 → format_uint m ≡ format_uint n → m ≡ n
unfolding format_uint format_int
uint_injective m n hm hn e = ap pos_part (
    some-injective (pos m) (pos n)
      (sym (parse_int-format_int m hm) ∙ ap parse_int e ∙ parse_int-format_int n hn))

octets :
    (a : ℕ)
    → split "." (format_v4 a)
      ≡ format_uint (a / 2 ^ 24)
        ∷ format_uint (a / 2 ^ 16 % 256)
        ∷ format_uint (a / 2 ^ 8 % 256)
        ∷ format_uint (a % 256)
        ∷ []
unfolding format_v4
octets a =
    let free = uint-IsFree in
    split-append "." (format_uint (a / 2 ^ 24)) _ (uint-IsFree _)
    ∙ ap (λ l. format_uint (a / 2 ^ 24) ∷ l)
        (split-append "." (format_uint (a / 2 ^ 16 % 256)) _ (uint-IsFree _)
          ∙ ap (λ l. format_uint (a / 2 ^ 16 % 256) ∷ l)
              (split-append "." (format_uint (a / 2 ^ 8 % 256)) _ (uint-IsFree _)
                ∙ ap (λ l. format_uint (a / 2 ^ 8 % 256) ∷ l)
                    (split-free "." (format_uint (a % 256)) (uint-IsFree _))))

format_v4_injective : (a b : ℕ) → a < 2 ^ 32 → b < 2 ^ 32 → format_v4 a ≡ format_v4 b → a ≡ b
format_v4_injective a b ha hb e =
    let same_octets = sym (octets a) ∙ ap (split ".") e ∙ octets b in
    let o1 =
      uint_injective (a / 2 ^ 24) (b / 2 ^ 24) (omega arith) (omega arith)
        (ap (λ l. get_or l 0 "") same_octets) in
    let o2 =
      uint_injective (a / 2 ^ 16 % 256) (b / 2 ^ 16 % 256) (omega arith) (omega arith)
        (ap (λ l. get_or l 1 "") same_octets) in
    let o3 =
      uint_injective (a / 2 ^ 8 % 256) (b / 2 ^ 8 % 256) (omega arith) (omega arith)
        (ap (λ l. get_or l 2 "") same_octets) in
    let o4 =
      uint_injective (a % 256) (b % 256) (omega arith) (omega arith)
        (ap (λ l. get_or l 3 "") same_octets) in
    omega arith

-- Two IPv4 addresses share a bucket exactly if their first 24 bits are the same.
pub bucket_ipv4_exact :
    (a b : ℕ)
    → a < 2 ^ 32
    → b < 2 ^ 32
    → (bucket_ipv4 (some (v4 a)) ≡ bucket_ipv4 (some (v4 b))) ↔ (a / 2 ^ 8 ≡ b / 2 ^ 8)
unfolding bucket_ipv4
bucket_ipv4_exact a b ha hb = (
  λ e.
      let masks =
        format_v4_injective (masked 32 24 a) (masked 32 24 b) (omega arith) (omega arith)
          (append_cancel_right _ _ "/24" e) in
      omega (arith, masks),
  λ e. ap (λ x. format_v4 (x * 2 ^ 8) ++ "/24") e,
)

exact_48 :
    (net : NetText) (a b : ℕ)
    → ((x y : ℕ) → net.format_v6 x ≡ net.format_v6 y → x ≡ y)
    → (bucket_ipv6 net (some (v6 a)) (pos 48) ≡ bucket_ipv6 net (some (v6 b)) (pos 48))
      ↔ (a / 2 ^ 80 ≡ b / 2 ^ 80)
unfolding bucket_ipv6
exact_48 net a b injective = (
  λ e.
      let masks = injective (masked 128 48 a) (masked 128 48 b) (append_cancel_right _ _ _ e) in
      omega (arith, masks),
  λ e. ap (λ x. net.format_v6 (x * 2 ^ 80) ++ ("/" ∷ format_uint 48)) e,
)

exact_56 :
    (net : NetText) (a b : ℕ)
    → ((x y : ℕ) → net.format_v6 x ≡ net.format_v6 y → x ≡ y)
    → (bucket_ipv6 net (some (v6 a)) (pos 56) ≡ bucket_ipv6 net (some (v6 b)) (pos 56))
      ↔ (a / 2 ^ 72 ≡ b / 2 ^ 72)
unfolding bucket_ipv6
exact_56 net a b injective = (
  λ e.
      let masks = injective (masked 128 56 a) (masked 128 56 b) (append_cancel_right _ _ _ e) in
      omega (arith, masks),
  λ e. ap (λ x. net.format_v6 (x * 2 ^ 72) ++ ("/" ∷ format_uint 56)) e,
)

-- The same for IPv6 with the prefix length of a block that sets 48, 56 or none, if the text of an IPv6
-- address stands for that address alone.
pub bucket_ipv6_exact :
    (net : NetText) (c : FairnessConfig) (a b : ℕ)
    → (c.ipv6_prefix_length ≡ pos 0)
      ⊎ (c.ipv6_prefix_length ≡ pos 48)
      ⊎ (c.ipv6_prefix_length ≡ pos 56)
    → ((x y : ℕ) → net.format_v6 x ≡ net.format_v6 y → x ≡ y)
    → let n = ipv6_prefix_length (some c) in
      (bucket_ipv6 net (some (v6 a)) n ≡ bucket_ipv6 net (some (v6 b)) n)
      ↔ (a / 2 ^ (128 - pos_part n) ≡ b / 2 ^ (128 - pos_part n))
unfolding bucket_ipv6 ipv6_prefix_length
bucket_ipv6_exact net c a b (inl e) injective = rw e (exact_56 net a b injective)
bucket_ipv6_exact net c a b (inr (inl e)) injective = rw e (exact_48 net a b injective)
bucket_ipv6_exact net c a b (inr (inr e)) injective = rw e (exact_56 net a b injective)
