-- ===== src/Cache/Redis/Stored.antt =====
-- What `ProductCache` reads back after it has written.
use marketplace_simulator_pr.Common.{
  ℕ, ◌^◌, ◌<◌, ◌≡◌, sym, ◌∙◌, ap, none, some, List, arith, Bool-cases, inl, inr, ◌==◌, ==→eq,
  if◌then◌else◌,
}
use marketplace_simulator_pr.Errors.{ok}
use marketplace_simulator_pr.Models.{Product, from_model}
use marketplace_simulator_pr.Events.Digits.{format_uint-inj}
use marketplace_simulator_pr.Store.World.{World, Platform}
use marketplace_simulator_pr.Store.Outbox.{eq_text}
use marketplace_simulator_pr.Store.Outbox.Texts.{eq_text_refl, eq_text_sound}
use marketplace_simulator_pr.Cache.Redis.{
  Json, cache_key, client_get, client_set, client_delete, cache_get, cache_set, cache_delete,
  decode_found,
}

-- The keys of two SKUs of 64 bits differ.
pub eq_text-cache_key :
    (k j : ℕ) → k < 2 ^ 64 → j < 2 ^ 64 → eq_text (cache_key k) (cache_key j) ≡ (k == j)
unfolding cache_key
eq_text-cache_key k j hk hj = elim (Bool-cases (k == j)) [
  | inl same ↦
      let e : k ≡ j = ==→eq k j same in
      ap (λ i. eq_text (cache_key i) (cache_key j)) e ∙ eq_text_refl (cache_key j) ∙ sym same
  | inr other ↦ elim (Bool-cases (eq_text (cache_key k) (cache_key j))) [
    | inr differ ↦ differ ∙ sym other
    | inl equal ↦
        let texts = eq_text_sound (cache_key k) (cache_key j) equal in
        let e : k ≡ j = format_uint-inj k j hk hj (ground arith) in absurd (ground arith)
  ]
]

-- Redis answers every call, and JSON gives back what a product was written as.
abbrev pub IsUp : Platform → Type 0
IsUp p = (n : ℕ) → p.redis_fault n ≡ none

abbrev pub GivesBack : Json → Product → Type 0
GivesBack json x =
    (text : List ℕ) × (json.encode (from_model x) ≡ ok text)
    × (json.decode text ≡ ok (from_model x))

cache_get_lem :
    (p : Platform) (json : Json) (k : ℕ) (w w' : World)
    → IsUp p
    → w'.redis (cache_key k) ≡ w.redis (cache_key k)
    → (cache_get p json k w').0 ≡ (cache_get p json k w).0
unfolding cache_get client_get decode_found
cache_get_lem p json k w w' up same = ground (arith, up w.redis_calls, up w'.redis_calls, same)

pub cache_set_lem :
    (p : Platform) (json : Json) (x : Product) (text : List ℕ) (k : ℕ) (w : World)
    → IsUp p
    → json.encode (from_model x) ≡ ok text
    → (cache_set p json x w).1.redis (cache_key k)
      ≡ (if eq_text (cache_key k) (cache_key x.sku) then some text else w.redis (cache_key k))
unfolding cache_set client_set
cache_set_lem p json x text k w up enc = ground (arith, up w.redis_calls, enc)

pub cache_get_hit :
    (p : Platform) (json : Json) (x : Product) (text : List ℕ) (w : World)
    → IsUp p
    → json.decode text ≡ ok (from_model x)
    → w.redis (cache_key x.sku) ≡ some text
    → (cache_get p json x.sku w).0 ≡ ok (some x)
unfolding cache_get client_get decode_found from_model
cache_get_hit p json x text w up dec there = ground (arith, up w.redis_calls, dec, there)

cache_delete_lem :
    (p : Platform) (json : Json) (sku k : ℕ) (w : World)
    → IsUp p
    → (cache_delete p json sku w).1.redis (cache_key k)
      ≡ (if eq_text (cache_key k) (cache_key sku) then none else w.redis (cache_key k))
unfolding cache_delete client_delete
cache_delete_lem p json sku k w up = ground (arith, up w.redis_calls)

cache_get_miss :
    (p : Platform) (json : Json) (k : ℕ) (w : World)
    → IsUp p
    → w.redis (cache_key k) ≡ none
    → (cache_get p json k w).0 ≡ ok none
unfolding cache_get client_get decode_found
cache_get_miss p json k w up gone = ground (arith, up w.redis_calls, gone)

-- Where Redis answers every call and JSON gives back a product as it was written: after a Set, and
-- for SKUs of 64 bits, a Get of the product's SKU finds the product, and a Get of any other SKU
-- finds what it found before; after a Delete of the SKU a Get of it finds nothing, and a Get of
-- any other finds what it found before.
pub cache_get-cache_set :
    (p : Platform) (json : Json) (x : Product) (k : ℕ) (w : World)
    → IsUp p
    → GivesBack json x
    → x.sku < 2 ^ 64
    → k < 2 ^ 64
    → ((cache_get p json k (cache_set p json x w).1).0
        ≡ (if k == x.sku then ok (some x) else (cache_get p json k w).0))
      × ((cache_get p json k (cache_delete p json x.sku w).1).0
          ≡ (if k == x.sku then ok none else (cache_get p json k w).0))
cache_get-cache_set p json x k w up (text, enc, dec) hx hk =
    let w' = (cache_set p json x w).1 in
    let stored = cache_set_lem p json x text k w up enc in
    let dropped = cache_delete_lem p json x.sku k w up in
    let key = eq_text-cache_key k x.sku hk hx in
    (
      elim (Bool-cases (k == x.sku)) [
        | inl same ↦
            let e : k ≡ x.sku = ==→eq k x.sku same in
            let mine = cache_set_lem p json x text x.sku w up enc in
            rw (same, e)
              (cache_get_hit p json x text w' up dec
                (ground (arith, mine, eq_text_refl (cache_key x.sku))))
        | inr other ↦ rw other (cache_get_lem p json k w w' up (ground (arith, stored, key, other)))
      ],
      elim (Bool-cases (k == x.sku)) [
        | inl same ↦ rw same (
            cache_get_miss p json k (cache_delete p json x.sku w).1 up
              (ground (arith, dropped, key, same)))
        | inr other ↦ rw other (
            cache_get_lem p json k w (cache_delete p json x.sku w).1 up
              (ground (arith, dropped, key, other)))
      ],
    )
