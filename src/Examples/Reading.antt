-- ===== src/Examples/Reading.antt =====
-- Readings, prices and rules.
use product_updates.Domain.Enums.{
  became_available, became_unavailable, price_dropped, price_changed, in_stock, unknown,
  price_increased,
}
use product_updates.Examples.Data.{dollars, rule_of, context}
use product_updates.Prelude.{some, none, refl, inl, ◌≡◌, false, ◌||◌, ◌&&◌}
use product_updates.Rules.Firing.{changed_iff_moved, unknown-silent, fires}

changed_iff_moved_example :
    let ctx = context (some (dollars 120)) (some (dollars 100)) in_stock in_stock in
    let rule = rule_of 3 price_changed in
    (fires rule price_changed ctx 9
      ≡ (fires rule price_dropped ctx 9 || fires rule price_increased ctx 9))
    × ((fires rule price_dropped ctx 9 && fires rule price_increased ctx 9) ≡ false)
changed_iff_moved_example =
    changed_iff_moved (rule_of 3 price_changed)
      (context (some (dollars 120)) (some (dollars 100)) in_stock in_stock) 9

unknown-silent_example :
    (fires (rule_of 3 became_available) became_available (context none none unknown in_stock) 9
      ≡ false)
    × (fires (rule_of 3 became_available) became_unavailable (context none none unknown in_stock) 9
        ≡ false)
unknown-silent_example =
    unknown-silent (rule_of 3 became_available) (context none none unknown in_stock) 9 (inl refl)
