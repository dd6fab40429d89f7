-- ===== src/Examples/Setup.antt =====
-- The builder's theorems at the shop.
use rust_events.Base.{ℕ, ◌≤◌, ◌<◌, ◌+◌, ◌≡◌, ◌↔◌, refl, some, str, ok, All, get_or}
use rust_events.Handler.{ms}
use rust_events.Registry.{find_handler, handler_ids_for}
use rust_events.Builder.Config.{build_config, handler_timeout_floor_check}
use rust_events.Builder.ConfigBounds.{build_config_iff}
use rust_events.Builder.Registration.{IsEntry, HasNewIds, find_pending, ids_for}
use rust_events.Builder.Built.{build_succeeds_iff, build_lookups}
use rust_events.Builder.{Outbox, build, register_all, check_entry, check_timeout, check_limit}
use rust_events.Runtime.Invoke.{our_timeout}
use rust_events.Runtime.Timing.{our_timeout_fits}
use rust_events.Examples.{shop_config, shop_builder, shop, mail_handler}

shop_config-accepted : build_config shop_config ≡ ok shop_config
unfolding build_config handler_timeout_floor_check
shop_config-accepted = refl

pub shop_built : build shop_config shop_builder ≡ ok shop
unfolding build register_all check_entry check_timeout check_limit handler_timeout_floor_check
shop_built = refl

mail_found : find_handler shop.registry (str "mail") ≡ some mail_handler
unfolding find_handler
mail_found = refl

build_config_iff_example : (build_config shop_config ≡ ok shop_config) ↔ (
    (1 ≤ 4)
    × (1 ≤ 3)
    × (shop_config.handler_timeout < shop_config.lease_timeout)
    × (ms 400 < shop_config.handler_timeout))
build_config_iff_example = build_config_iff shop_config

build_succeeds_iff_example :
    ((o : Outbox (Unit {0}) ℕ) × (build shop_config shop_builder ≡ ok o)) ↔ (
      All (IsEntry shop_config.handler_timeout) shop_builder.pending
      × HasNewIds shop_builder.pending)
build_succeeds_iff_example = build_succeeds_iff shop_config shop_builder

build_lookups_example :
    (find_handler shop.registry (str "mail") ≡ find_pending (str "mail") shop_builder.pending)
    × (handler_ids_for shop.registry (str "order.created")
        ≡ ids_for (str "order.created") shop_builder.pending)
build_lookups_example =
    build_lookups shop_config shop_builder {o = shop} (str "mail") (str "order.created") shop_built

our_timeout_fits_example :
    let limit = our_timeout shop_config.handler_timeout mail_handler.handler_timeout in
    (limit + ms 200 ≡ get_or mail_handler.handler_timeout shop_config.handler_timeout)
    × (limit + ms 200 ≤ shop_config.handler_timeout)
    × (ms 200 < limit)
our_timeout_fits_example =
    our_timeout_fits shop_config shop_config shop_builder shop (str "mail") mail_handler
      shop_config-accepted refl shop_built mail_found
