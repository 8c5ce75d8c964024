-- ===== src/Sync/Proxmox/Respect.antt =====
-- A virtual machine that the Proxmox module does not own.
use netbox_monitor.Prelude.{
  String, ◌≡◌, refl, false, some, List, not, ◌||◌, arith, if-holds, is_nil, mem,
}
use netbox_monitor.Wire.Object.{Obj}
use netbox_monitor.Wire.Proxmox.{Kind, Guest}
use netbox_monitor.Effects.{pure, ◌>>=◌}
use netbox_monitor.Netbox.{is_managed}
use netbox_monitor.Sync.Proxmox.Guest.{
  Setup, Wanted, vm_updates, proxmox_source, change_vm, update_vm, attach_network, settle_guest,
}
use netbox_monitor.Sync.Proxmox.{mark_gone}

module _ (ctx : Setup) (vm : Obj) (human : is_managed vm (some proxmox_source) ≡ false) where
  change_vm-unmanaged : (w : Wanted) → change_vm ctx w vm ≡ pure vm
  unfolding change_vm
  change_vm-unmanaged w =
      if-holds (λ m. m ≡ pure vm)
        (is_nil (vm_updates w vm) || not (is_managed vm (some proxmox_source))) (pure vm) _
        (λ _. refl) (λ q. absurd (ground (arith, q, human)))

  update_vm-unmanaged : (w : Wanted) → update_vm ctx w vm ≡ pure vm
  unfolding update_vm ◌>>=◌
  update_vm-unmanaged w = rw (change_vm-unmanaged w, human) refl

  attach-unmanaged :
      (host node : String) (kind : Kind) (g : Guest)
      → attach_network ctx host node kind g vm ≡ pure tt
  unfolding attach_network
  attach-unmanaged host node kind g = rw human refl

  mark_gone-unmanaged : (seen : List String) → mark_gone ctx seen vm ≡ pure tt
  unfolding mark_gone
  mark_gone-unmanaged seen =
      if-holds (λ m. m ≡ pure tt) (mem vm.name seen) (pure tt) _ (λ _. refl) (λ _. rw human refl)

-- A virtual machine that does not carry both the managed tag and the tag of the Proxmox source, although
-- it has the name of a guest, is left alone: the module asks for nothing once it has found it, be the
-- guest there or gone. It is not changed, and gets no interface and no IP.
pub settle_guest-unmanaged :
    (ctx : Setup) (host : String) (cluster vm : Obj) (node : String) (kind : Kind) (g : Guest)
    (w : Wanted) (seen : List String)
    → is_managed vm (some proxmox_source) ≡ false
    → (settle_guest ctx host cluster node kind g w (some vm) ≡ pure tt)
      × (mark_gone ctx seen vm ≡ pure tt)
unfolding settle_guest ◌>>=◌
settle_guest-unmanaged ctx host cluster vm node kind g w seen human = (
  rw (update_vm-unmanaged ctx vm human w) (attach-unmanaged ctx vm human host node kind g),
  mark_gone-unmanaged ctx vm human seen,
)
