-- ===== src/Examples/Launch.antt =====
-- The theorems on `start` at the shop.
use rust_events.Base.{
  ℕ, ◌≤◌, ◌≡◌, refl, false, some, [], ◌∷◌, any, count_where, Str, str, ok, err, lookup,
}
use rust_events.Util.{database}
use rust_events.Builder.{i32_max}
use rust_events.Registry.{find_handler}
use rust_events.Builder.{build, register_all, check_entry, check_timeout, check_limit}
use rust_events.Builder.Config.{handler_timeout_floor_check}
use rust_events.Dispatch.{envelope_for}
use rust_events.Start.Worker.{Queue, concurrency_limits}
use rust_events.Start.Once.{is_ok, start_all, starts_once}
use rust_events.Start.Limits.{keyed_job_has_limit}
use rust_events.Start.{StartIo, start}
use rust_events.Examples.{shop, shop_config, shop_builder}

abbrev queue : Queue (Unit {0}) ℕ
queue = record {
  BuildError = Unit {0};
  StartError = Unit {0};
  Worker = ℕ;
  Handle = ℕ;
  World = Unit {0};
  build = λ world cfg. ok cfg.concurrency;
  start = λ world worker. ok worker;
}

-- Before the migrator has run, and after.
abbrev unmigrated : StartIo queue
unmigrated = record {
  max_connections = 20;
  probe = err (database (some (str "42P01")) []);
  world = tt;
}

abbrev migrated : StartIo queue
migrated = record { max_connections = 20; probe = ok tt; world = tt }

starts_once_example :
    let (answers, flag) = start_all queue 0 shop (unmigrated ∷ migrated ∷ migrated ∷ []) false in
    (count_where is_ok answers ≤ 1) × (flag ≡ any is_ok answers)
starts_once_example = starts_once queue 0 shop (unmigrated ∷ migrated ∷ migrated ∷ [])

shop_is_built : build shop_config shop_builder ≡ ok shop
unfolding build register_all check_entry check_timeout check_limit handler_timeout_floor_check
shop_is_built = refl

mail_is_keyed : (envelope_for shop.registry 7 (str "mail")).1 ≡ some (str "mail")
unfolding envelope_for find_handler
mail_is_keyed = refl

keyed_job_has_limit_example :
    (◌≡◌ {A = Str} (str "mail") (str "mail"))
    × ((n : ℕ) × (lookup (str "mail") (concurrency_limits shop.registry.handlers) ≡ some n)
        × (1 ≤ n)
        × (n ≤ i32_max))
keyed_job_has_limit_example =
    keyed_job_has_limit shop_config shop_builder shop 7 (str "mail") (str "mail") shop_is_built
      mail_is_keyed
