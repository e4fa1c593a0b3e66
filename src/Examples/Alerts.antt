-- ===== src/Examples/Alerts.antt =====
-- Recording an alert once.
use product_updates.Examples.Data.{drop_match, owner, no_alerts}
use product_updates.Notifications.Keys.{build_dedupe_key, record_match, bucket_of}
use product_updates.Notifications.Uniqueness.{SameAlert, same_key_iff, record_again}
use product_updates.Prelude.{some, none, refl, ◌≡◌, ◌↔◌, Text}

-- a digest without collisions
abbrev plain : Text → Text
plain t = t

same_key_iff_example :
    (build_dedupe_key plain (drop_match 3) 5 86400 ≡ build_dedupe_key plain (drop_match 4) 9 86400)
    ↔ (SameAlert (drop_match 3) (drop_match 4) × (bucket_of 5 86400 ≡ bucket_of 9 86400))
same_key_iff_example = same_key_iff plain (λ s t e. e) (drop_match 3) (drop_match 4) 5 9 86400

same_drop : SameAlert (drop_match 3) (drop_match 3)
same_drop = record { product = refl; rule = refl; type = refl; signature = refl }

record_again_example :
    let after = (record_match plain 86400 (some owner) (drop_match 3) 5 no_alerts).1 in
    record_match plain 86400 none (drop_match 3) 9 after ≡ (none, after)
unfolding bucket_of
record_again_example =
    record_again plain 86400 (some owner) none (drop_match 3) (drop_match 3) 5 9 no_alerts same_drop
      refl
