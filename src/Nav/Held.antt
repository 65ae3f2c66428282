-- ===== src/Nav/Held.antt =====
-- Which mints of a vault count as its holdings, and with which value.
use fbyt.Base.{
  ℕ, suc, ◌+◌, ◌^◌, ◌<◌, ◌≡◌, ◌⊎◌, inl, inr, refl, ap, ◌∙◌, Text, Option, none, some, List, arith,
  subst, dec_lt, Option-cases,
}
use fbyt.Base.Int.{
  ℤ, pos, negsuc, pos_part, neg_part, ◌+ℤ◌, ◌-ℤ◌, ◌*ℤ◌, ◌/ℤ◌, +ℤ_parts, -ℤ_parts, eq_of_parts,
}
use fbyt.Money.Account.{PythPrice, parse_pyth_price}
use fbyt.Money.Scale.{scale}
use fbyt.Nav.Ledger.{Read, threw, got, Balance, Ledger}
use fbyt.Nav.Compute.{Holding, value_micro, priced, holding_of}

-- The value of an amount: amount * price * 10^(6 + expo - decimals), rounded toward zero.
pub data IsValue (amount decimals : ℕ) (p : PythPrice) : ℤ → Type 0 where
  whole :
      (k : ℕ)
      → pos 6 +ℤ p.expo ≡ pos (decimals + k)
      → IsValue amount decimals p (pos amount *ℤ p.price *ℤ pos (10 ^ k))
  part :
      (k : ℕ)
      → 0 < k
      → pos 6 +ℤ p.expo +ℤ pos k ≡ pos decimals
      → IsValue amount decimals p (pos amount *ℤ p.price /ℤ pos (10 ^ k))

value_micro-IsValue :
    (b : Balance) (p : PythPrice) → IsValue b.amount b.decimals p (value_micro b p)
unfolding value_micro scale
value_micro-IsValue b p = at (pos 6 +ℤ p.expo) (pos 6 +ℤ p.expo -ℤ pos b.decimals) refl refl
  where
    at :
        (z shift : ℤ)
        → pos 6 +ℤ p.expo ≡ z
        → z -ℤ pos b.decimals ≡ shift
        → IsValue b.amount b.decimals p (scale (pos b.amount *ℤ p.price) shift)
    at z (pos k) q e = whole k (
        q
        ∙ eq_of_parts _ _
            (omega (arith, -ℤ_parts z (pos b.decimals), ap pos_part e, ap neg_part e)))
    at z (negsuc k) q e = part (suc k) (omega arith) (
        ap (λ (x : ℤ). x +ℤ pos (suc k)) q
        ∙ eq_of_parts _ _ (
            omega (
              arith,
              +ℤ_parts z (pos (suc k)),
              -ℤ_parts z (pos b.decimals),
              ap pos_part e,
              ap neg_part e,
            )))

-- Why a mint has no holding.
pub data IsSkipped (l : Ledger) (vault admin_pool m : Text) : Type 0 where
  no_account : l.balance vault m ≡ none → IsSkipped l vault admin_pool m
  no_tokens :
      (b : Balance) → l.balance vault m ≡ some b → b.amount ≡ 0 → IsSkipped l vault admin_pool m
  no_oracle : l.feed_id admin_pool m ≡ got none → IsSkipped l vault admin_pool m
  no_price :
      (feed : List ℕ)
      → l.feed_id admin_pool m ≡ got (some feed)
      → l.price_data feed ≡ none
      → IsSkipped l vault admin_pool m

-- The holding of a mint: a balance that is not zero, with the price of its oracle.
pub record IsHeld (l : Ledger) (vault admin_pool m : Text) (h : Holding (Ledger.Double l))
    : Type 0 where
  pub balance : Balance
  pub feed : List ℕ
  pub bytes : List ℕ
  pub price : PythPrice
  pub has_balance : l.balance vault m ≡ some balance
  pub some_tokens : 0 < balance.amount
  pub has_oracle : l.feed_id admin_pool m ≡ got (some feed)
  pub has_price : l.price_data feed ≡ some bytes
  pub parsed : parse_pyth_price bytes ≡ some price
  pub mint : h.mint ≡ m
  pub amount : h.amount ≡ balance.amount
  pub decimals : h.decimals ≡ balance.decimals
  pub price_usd : h.price_usd ≡ l.usd_price price
  pub value : IsValue balance.amount balance.decimals price h.value_micro_usd

pub Found-cases {ℓ} :
    {A : Type ℓ} (r : Read (Option A))
    → (r ≡ threw) ⊎ ((r ≡ got none) ⊎ ((a : A) × (r ≡ got (some a))))
Found-cases threw = inl refl
Found-cases (got none) = inr (inl refl)
Found-cases (got (some a)) = inr (inr (a, refl))

module _ (l : Ledger) (vault admin_pool m : Text) where
  open l use {Double}

  priced-IsHeld :
      (b : Balance) (feed : List ℕ) (h : Holding Double)
      → l.balance vault m ≡ some b
      → 0 < b.amount
      → l.feed_id admin_pool m ≡ got (some feed)
      → priced l m b feed ≡ got (some h)
      → IsHeld l vault admin_pool m h
  unfolding priced
  priced-IsHeld b feed h eb pb ef e = elim (Option-cases (l.price_data feed)) [
    | inl x ↦ absurd (ground (arith, x, e))
    | inr (bytes, x) ↦ elim (Option-cases (parse_pyth_price bytes)) [
      | inl y ↦ absurd (ground (arith, x, y, e))
      | inr (p, y) ↦
          let same : record {
            mint = m;
            amount = b.amount;
            decimals = b.decimals;
            price_usd = l.usd_price p;
            value_micro_usd = value_micro b p;
          }
              ≡ h =
            ground (arith, x, y, e) in
          subst (IsHeld l vault admin_pool m) same (record {
            balance = b;
            feed = feed;
            bytes = bytes;
            price = p;
            has_balance = eb;
            some_tokens = pb;
            has_oracle = ef;
            has_price = x;
            parsed = y;
            mint = refl;
            amount = refl;
            decimals = refl;
            price_usd = refl;
            value = value_micro-IsValue b p;
          })
    ]
  ]

  priced-IsSkipped :
      (b : Balance) (feed : List ℕ)
      → l.feed_id admin_pool m ≡ got (some feed)
      → priced l m b feed ≡ got none
      → IsSkipped l vault admin_pool m
  unfolding priced
  priced-IsSkipped b feed ef e = elim (Option-cases (l.price_data feed)) [
    | inl x ↦ no_price feed ef x
    | inr (bytes, x) ↦ absurd (elim (Option-cases (parse_pyth_price bytes)) [
      | inl y ↦ ground (arith, x, y, e)
      | inr (p, y) ↦ ground (arith, x, y, e)
    ])
  ]

  pub holding-IsHeld :
      (h : Holding Double)
      → holding_of l vault admin_pool m ≡ got (some h)
      → IsHeld l vault admin_pool m h
  unfolding holding_of
  holding-IsHeld h e = elim (Option-cases (l.balance vault m)) [
    | inl x ↦ absurd (ground (arith, x, e))
    | inr (b, x) ↦ elim (dec_lt 0 b.amount) [
      | no n ↦ absurd (ground (arith, x, e))
      | yes p ↦ elim (Found-cases (l.feed_id admin_pool m)) [
        | inl y ↦ absurd (ground (arith, x, y, e))
        | inr (inl y) ↦ absurd (ground (arith, x, y, e))
        | inr (inr (feed, y)) ↦ priced-IsHeld b feed h x p y (ground (arith, x, y, e))
      ]
    ]
  ]

  pub holding-IsSkipped :
      holding_of l vault admin_pool m ≡ got none → IsSkipped l vault admin_pool m
  unfolding holding_of
  holding-IsSkipped e = elim (Option-cases (l.balance vault m)) [
    | inl x ↦ no_account x
    | inr (b, x) ↦ elim (dec_lt 0 b.amount) [
      | no n ↦ no_tokens b x (omega arith)
      | yes p ↦ elim (Found-cases (l.feed_id admin_pool m)) [
        | inl y ↦ absurd (ground (arith, x, y, e))
        | inr (inl y) ↦ no_oracle y
        | inr (inr (feed, y)) ↦ priced-IsSkipped b feed y (ground (arith, x, y, e))
      ]
    ]
  ]
