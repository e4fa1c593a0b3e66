-- ===== src/Examples/Keys.antt =====
-- Two accounts with their keys, a worker with its jobs, and a query.
use product_updates.QueryPolicy.{is_number, is_specific}
use product_updates.QueryPolicy.Numbered.{is_specific-numbered}
use product_updates.Scheduler.Heartbeat.Beating.{run_beats, touches, clears, prunes, beats-running}
use product_updates.Prelude.{inl, text_eq}
use product_updates.Prelude.{
  ◌≡◌, ◌∷◌, [], refl, some, none, true, false, codes, Text, is_empty, arith, List, any,
}
use product_updates.Users.{User, Users, auth_enabled, resolve_user, default_user, set_active}
use product_updates.Users.Access.{Entitled, resolve_user-Entitled, resolve_user-blank_keys}
use product_updates.Users.Closed.{IsClosed, set_active-IsClosed}
use product_updates.Scheduler.{Schedule, reconcile, interval_of}
use product_updates.Scheduler.Reconciled.{reconcile-interval_of}
use product_updates.Scheduler.Heartbeat.{Heartbeat, read, running, touch, stale_after}
use product_updates.Scheduler.Heartbeat.Living.{running-read, is_live}

-- a digest that puts one character in front
abbrev salted : Text → Text
salted key = b'#' ∷ key

abbrev unchanged_case : Text → Text
unchanged_case t = t

abbrev ann : User
ann = record {
  id = 1;
  email = codes "ann@shop.test";
  name = none;
  api_key_hash = some (salted (codes "k1"));
  is_active = true;
  is_admin = false;
}

abbrev bob : User
bob = record ann { id = 2; email = codes "bob@shop.test"; api_key_hash = none }

abbrev two_users : Users
two_users = record { rows = ann ∷ bob ∷ []; next_id = 3 }

abbrev without_ann : Users
without_ann = record two_users { rows = record ann { is_active = false } ∷ bob ∷ [] }

resolve_user-Entitled_example :
    (key : Text) × ((some (codes "k1") ≡ some key)
      × ((is_empty key ≡ false) × Entitled salted unchanged_case none key two_users ann))
unfolding auth_enabled resolve_user text_eq
resolve_user-Entitled_example =
    resolve_user-Entitled salted unchanged_case none two_users two_users ann (some (codes "k1"))
      refl refl

resolve_user-blank_keys_example :
    resolve_user salted unchanged_case (some (codes ",")) (some (codes "x")) two_users
    ≡ some (default_user unchanged_case two_users)
resolve_user-blank_keys_example =
    resolve_user-blank_keys salted unchanged_case (codes ",") (codes "x") two_users (refl, tt) refl

set_active-IsClosed_example : IsClosed 1 two_users without_ann
unfolding set_active
set_active-IsClosed_example =
    set_active-IsClosed 1 two_users without_ann ((refl, tt), (tt, tt)) refl

-- 7 is wanted sooner than before, 8 is new, and 9 is wanted no more
abbrev wanted_jobs : Schedule
wanted_jobs = (7, 60) ∷ (8, 600) ∷ []

abbrev old_jobs : Schedule
old_jobs = (9, 300) ∷ (7, 300) ∷ []

reconcile-interval_of_example :
    interval_of 7 (reconcile wanted_jobs old_jobs).0 ≡ interval_of 7 wanted_jobs
unfolding interval_of
reconcile-interval_of_example = reconcile-interval_of wanted_jobs old_jobs 7 (refl, (refl, tt))

abbrev beats : List Heartbeat
beats = record { worker_id = codes "w1"; started_at = 0; last_seen_at = 5000000 } ∷ []

running-read_example :
    running (read (some beats) 60 9000000) ≡ some (any (is_live 60 9000000) beats)
running-read_example = running-read beats 60 9000000

beats-running_example :
    running (
      read
        (some (
          run_beats
            (touches 9500000 (codes "w1") ∷ clears (codes "w1") ∷ prunes 9600000 1200 ∷ [])
            (touch 9000000 (codes "w2") beats)))
        60
        100000000)
    ≡ some true
unfolding stale_after text_eq
beats-running_example =
    beats-running beats (codes "w2") 60 9000000 100000000
      (touches 9500000 (codes "w1") ∷ clears (codes "w1") ∷ prunes 9600000 1200 ∷ []) (omega arith)
      (inl refl, (refl, ((omega arith, omega arith), tt)))

is_specific-numbered_example : is_specific unchanged_case (codes "galaxy s25") ≡ true
unfolding is_number
is_specific-numbered_example = is_specific-numbered unchanged_case (codes "galaxy s25") refl
