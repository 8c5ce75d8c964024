-- ===== src/Safety.antt =====
-- What any run of the synchronisation asks for: the guards of clients/netbox.py, seen from the trace
-- of a whole operation. The environment is arbitrary, so it covers every NetBox, clock and switch.
use netbox_monitor.Prelude.{String, ◌≡◌, true, ◌||◌, ℕ, Option, All}
use netbox_monitor.Effects.Run.{Environment, run, All-trace}
use netbox_monitor.Netbox.{Client}
use netbox_monitor.Netbox.Guard.{Permitted}
use netbox_monitor.Sync.Common.Host.{HostSpec, ensure_host_device}
use netbox_monitor.Sync.Common.Guard.{ensure_host_device-Permitted}
use netbox_monitor.Sync.Cleanup.{Selection, delete_managed}
use netbox_monitor.Sync.Cleanup.Guard.{IsRead, delete_managed-Permitted, delete_managed-IsRead}

module _ {S : Type 0} (env : Environment S) (s : S) where
  -- Every request of `ensure_host_device` is one that the client permits: a write only in a live run,
  -- the deletion of an object only if it carries the managed tag, and no session with a switch.
  pub ensure_host_device-trace :
      (c : Client) (spec : HostSpec)
      → All (Permitted c) (run env (ensure_host_device c spec) s).trace
  ensure_host_device-trace c spec =
      All-trace env (Permitted c) _ s (ensure_host_device-Permitted c spec)

  -- Whatever is selected, `delete_managed` deletes only objects that carry the managed tag, and
  -- writes nothing when the client is in dry-run mode.
  pub delete_managed-trace :
      (timestamp : String → Option ℕ) (c : Client) (sel : Selection)
      → All (Permitted c) (run env (delete_managed timestamp c sel) s).trace
  delete_managed-trace timestamp c sel =
      All-trace env (Permitted c) _ s (delete_managed-Permitted timestamp c sel)

  -- With the dry-run switch of the call or of the client on, `delete_managed` writes nothing.
  pub delete_managed-dry_trace :
      (timestamp : String → Option ℕ) (c : Client) (sel : Selection)
      → (sel.dry_run || c.dry_run) ≡ true
      → All IsRead (run env (delete_managed timestamp c sel) s).trace
  delete_managed-dry_trace timestamp c sel dry =
      All-trace env IsRead _ s (delete_managed-IsRead timestamp c sel dry)
