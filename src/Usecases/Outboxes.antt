-- ===== src/Usecases/Outboxes.antt =====
-- What the loops that fill the outboxes leave, when they succeed.
use marketplace_simulator_pr.Common.{ℕ, suc, ◌+◌, ◌≡◌, List, [], ◌∷◌, ◌++◌, arith, length}
use mathlib.Core.List.{append-nil, append_assoc}
use marketplace_simulator_pr.Errors.{ok}
use marketplace_simulator_pr.Models.{NewEvent, Entry}
use marketplace_simulator_pr.Store.World.{World, Platform, wrapped, >>=-ok, wrapped-ok}
use marketplace_simulator_pr.Store.Outbox.{new_entry}
use marketplace_simulator_pr.Store.Outbox.ProductEvents.{create_event}
use marketplace_simulator_pr.Store.Outbox.CacheUpdates.{create_update}
use marketplace_simulator_pr.Usecases.Repository.{create_events, create_updates}

-- The records that a transaction at time `now` adds, when `drawn` UUIDs were generated before.
module _ {A : Type 0} (p : Platform) (now : ℕ) where
  unfoldable pub new_entries : ℕ → List A → List (Entry A)
  new_entries drawn [] = []
  new_entries drawn (b ∷ bs) = new_entry p now drawn b ∷ new_entries (drawn + 1) bs

abbrev pub after_events : Platform → List NewEvent → World → World
after_events p es w = record w {
  tables = record w.tables { product_events = w.product_events ++ new_entries p w.now w.drawn es };
  drawn = w.drawn + length es;
  calls = w.calls + length es;
}

abbrev pub after_updates : Platform → List ℕ → World → World
after_updates p skus w = record w {
  tables = record w.tables { cache_updates = w.cache_updates ++ new_entries p w.now w.drawn skus };
  drawn = w.drawn + length skus;
  calls = w.calls + length skus;
}

one_more : (a n : ℕ) → a + 1 + n ≡ a + suc n
one_more a n = omega arith

create_event-ok :
    (p : Platform) (e : NewEvent) (w w' : World)
    → create_event p e w ≡ (ok tt, w')
    → w' ≡ record w {
      tables = record w.tables {
        product_events = w.product_events ++ new_entries p w.now w.drawn (e ∷ []);
      };
      drawn = w.drawn + 1;
      calls = w.calls + 1;
    }
unfolding create_event new_entries
create_event-ok p e w w' h = ground arith

create_update-ok :
    (p : Platform) (sku : ℕ) (w w' : World)
    → create_update p sku w ≡ (ok tt, w')
    → w' ≡ record w {
      tables = record w.tables {
        cache_updates = w.cache_updates ++ new_entries p w.now w.drawn (sku ∷ []);
      };
      drawn = w.drawn + 1;
      calls = w.calls + 1;
    }
unfolding create_update new_entries
create_update-ok p sku w w' h = ground arith

pub create_events-ok :
    (p : Platform) (es : List NewEvent) (w w' : World)
    → create_events p es w ≡ (ok tt, w')
    → w' ≡ after_events p es w
unfolding create_events new_entries
create_events-ok p [] w w' h = rw append-nil (ground arith)
create_events-ok p (e ∷ es) w w' h =
    let (_, w₁, first, rest) =
      >>=-ok (wrapped "Execute: save outbox_record" (create_event p e)) (λ _. create_events p es) w
        h in
    let e₁ = create_event-ok p e w w₁ (wrapped-ok _ (create_event p e) w first) in
    let e₂ = create_events-ok p es w₁ w' rest in
    rw (e₂, e₁, append_assoc, one_more w.drawn (length es), one_more w.calls (length es))

pub create_updates-ok :
    (p : Platform) (skus : List ℕ) (w w' : World)
    → create_updates p skus w ≡ (ok tt, w')
    → w' ≡ after_updates p skus w
unfolding create_updates new_entries
create_updates-ok p [] w w' h = rw append-nil (ground arith)
create_updates-ok p (k ∷ ks) w w' h =
    let (_, w₁, first, rest) =
      >>=-ok (wrapped "Execute: save cache_update_outbox" (create_update p k))
        (λ _. create_updates p ks) w h in
    let e₁ = create_update-ok p k w w₁ (wrapped-ok _ (create_update p k) w first) in
    let e₂ = create_updates-ok p ks w₁ w' rest in
    rw (e₂, e₁, append_assoc, one_more w.drawn (length ks), one_more w.calls (length ks))
