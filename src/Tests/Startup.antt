-- ===== src/Tests/Startup.antt =====
-- The registration of the tags at a concrete start of the service.
use netbox_monitor.Prelude.{ℕ, ◌≡◌, refl, List}
use netbox_monitor.Wire.Request.{Answer, answered, failed}
use netbox_monitor.Effects.{pure, try_catch, ask, ◌>>=◌, for_each}
use netbox_monitor.Effects.Run.{run}
use netbox_monitor.Netbox
use netbox_monitor.Netbox.{Client, tag_ids, ensure}
use netbox_monitor.Bootstrap.{bootstrap, ensure_tag, ensure_custom_field, ensure_role}
use netbox_monitor.Bootstrap.Registered.{registered_slugs, bootstrap-tag_ids}
use netbox_monitor.Tests.World.{world, client}

abbrev value : {A : Type 0} → Answer A → A → A
value (answered a) b = a
value (failed e) b = b

abbrev bootstrapped : Client
bootstrapped = value (run world (bootstrap "lldp-source" client) tt).result client

bootstrap_answers : (run world (bootstrap "lldp-source" client) tt).result ≡ answered bootstrapped
unfolding run bootstrap ensure_tag ensure_custom_field ensure_role ensure Netbox.create for_each
    ◌>>=◌ try_catch ask
bootstrap_answers = refl

bootstrap-tag_ids_example :
    (ids : List ℕ) × (tag_ids bootstrapped (registered_slugs "lldp-source") ≡ pure ids)
bootstrap-tag_ids_example =
    bootstrap-tag_ids "lldp-source" client bootstrapped world tt bootstrap_answers
