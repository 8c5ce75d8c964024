-- ===== src/Effects/Only.antt =====
-- Every request that a program can make satisfies a predicate, whatever is answered.
use netbox_monitor.Prelude.{
  ℕ, String, ◌≡◌, refl, Bool, true, false, Option, none, some, List, [], ◌∷◌,
}
use netbox_monitor.Prelude.{if◌then◌else◌, maybe, either, ◌⊎◌, inl, inr}
use netbox_monitor.Wire.Proxmox.{Kind}
use netbox_monitor.Wire.Object.{Endpoint, Obj, Payload}
use netbox_monitor.Wire.Request.{Request, Reply, Answer, answered, failed, Exn, HostState}
use netbox_monitor.Effects.{Prog, pure, raise, call, try_catch, ask, ◌>>=◌, for_each}

pub data Only (P : Request → Type 0) {A : Type 0} : Prog A → Type 0 where
  only_pure : (a : A) → Only P (pure a)
  only_raise : (e : Exn) → Only P (raise e)
  only_call :
      (r : Request) (k : Answer (Reply r) → Prog A)
      → P r
      → ((x : Answer (Reply r)) → Only P (k x))
      → Only P (call r k)

module _ {P : Request → Type 0} where
  pub Only-ask : (r : Request) → P r → Only P (ask r)
  unfolding ask
  Only-ask r h = only_call r _ h (elim [ answered a ↦ only_pure a | failed e ↦ only_raise e ])

  pub Only-try_catch :
      {A : Type 0} (m : Prog A) (handler : Exn → Prog A)
      → Only P m
      → ((e : Exn) → Only P (handler e))
      → Only P (try_catch m handler)
  unfolding try_catch
  Only-try_catch (pure a) handler h g = only_pure a
  Only-try_catch (raise e) handler h g = g e
  Only-try_catch (call r k) handler (only_call _ _ p h) g =
      only_call r _ p (λ x. Only-try_catch (k x) handler (h x) g)

  pub Only-bind :
      {A B : Type 0} (m : Prog A) (f : A → Prog B)
      → Only P m
      → ((a : A) → Only P (f a))
      → Only P (m >>= f)
  unfolding ◌>>=◌
  Only-bind (pure a) f h g = g a
  Only-bind (raise e) f h g = only_raise e
  Only-bind (call r k) f (only_call _ _ p h) g = only_call r _ p (λ x. Only-bind (k x) f (h x) g)

  pub Only-for_each :
      {A S : Type 0} (xs : List A) (s : S) (body : A → S → Prog S)
      → ((x : A) (t : S) → Only P (body x t))
      → Only P (for_each xs s body)
  unfolding for_each
  Only-for_each [] s body h = only_pure s
  Only-for_each (x ∷ xs) s body h = Only-bind (body x s) _ (h x s) (λ t. Only-for_each xs t body h)

  pub Only-if :
      {A : Type 0} (b : Bool) (m n : Prog A)
      → (b ≡ true → Only P m)
      → (b ≡ false → Only P n)
      → Only P (if b then m else n)
  Only-if true m n hm hn = hm refl
  Only-if false m n hm hn = hn refl

  pub Only-maybe :
      {A B : Type 0} (o : Option A) (m : Prog B) (f : A → Prog B)
      → Only P m
      → ((a : A) → Only P (f a))
      → Only P (maybe o m f)
  Only-maybe none m f hm hf = hm
  Only-maybe (some a) m f hm hf = hf a

  pub Only-either :
      {A B C : Type 0} (o : A ⊎ B) (f : A → Prog C) (g : B → Prog C)
      → ((a : A) → Only P (f a))
      → ((b : B) → Only P (g b))
      → Only P (either o f g)
  Only-either (inl a) f g hf hg = hf a
  Only-either (inr b) f g hf hg = hg b

  pub Only-weaken :
      {Q : Request → Type 0} {A : Type 0} (m : Prog A)
      → ((r : Request) → P r → Q r)
      → Only P m
      → Only Q m
  Only-weaken (pure a) w h = only_pure a
  Only-weaken (raise e) w h = only_raise e
  Only-weaken (call r k) w (only_call _ _ p h) =
      only_call r k (w r p) (λ x. Only-weaken (k x) w (h x))

  -- `Only-ask` for each kind of request whose answer is data: with the kind known, `search` can
  -- tell the type of the answer.
  pub Only-update :
      (o : Obj) (d : Payload) → P (Request.update o d) → Only P (ask (Request.update o d))
  Only-update o d h = Only-ask _ h

  pub Only-delete : (o : Obj) → P (Request.delete o) → Only P (ask (Request.delete o))
  Only-delete o h = Only-ask _ h

  pub Only-get : (e : Endpoint) (q : Payload) → P (Request.get e q) → Only P (ask (Request.get e q))
  Only-get e q h = Only-ask _ h

  pub Only-filter :
      (e : Endpoint) (q : Payload) → P (Request.filter e q) → Only P (ask (Request.filter e q))
  Only-filter e q h = Only-ask _ h

  pub Only-netbox_version : P Request.netbox_version → Only P (ask Request.netbox_version)
  Only-netbox_version h = Only-ask _ h

  pub Only-select_host :
      (k : String) → P (Request.select_host k) → Only P (ask (Request.select_host k))
  Only-select_host k h = Only-ask _ h

  pub Only-select_kv : (k : String) → P (Request.select_kv k) → Only P (ask (Request.select_kv k))
  Only-select_kv k h = Only-ask _ h

  pub Only-select_kv_like :
      (k : String) → P (Request.select_kv_like k) → Only P (ask (Request.select_kv_like k))
  Only-select_kv_like k h = Only-ask _ h

  pub Only-time : P Request.time → Only P (ask Request.time)
  Only-time h = Only-ask _ h

  pub Only-now_iso : P Request.now_iso → Only P (ask Request.now_iso)
  Only-now_iso h = Only-ask _ h

  pub Only-monotonic : P Request.monotonic → Only P (ask Request.monotonic)
  Only-monotonic h = Only-ask _ h

  pub Only-load_oui : P Request.load_oui → Only P (ask Request.load_oui)
  Only-load_oui h = Only-ask _ h

  pub Only-arp_table : P Request.arp_table → Only P (ask Request.arp_table)
  Only-arp_table h = Only-ask _ h

  pub Only-reverse_dns :
      (ip : String) → P (Request.reverse_dns ip) → Only P (ask (Request.reverse_dns ip))
  Only-reverse_dns ip h = Only-ask _ h

  pub Only-fetch_cert :
      (h : String) (n : ℕ) → P (Request.fetch_cert h n) → Only P (ask (Request.fetch_cert h n))
  Only-fetch_cert h n p = Only-ask _ p

  pub Only-wait : (m : String) (n : ℕ) → P (Request.wait m n) → Only P (ask (Request.wait m n))
  Only-wait m n p = Only-ask _ p

  pub Only-pve_cluster_name :
      (h : String) → P (Request.pve_cluster_name h) → Only P (ask (Request.pve_cluster_name h))
  Only-pve_cluster_name h p = Only-ask _ p

  pub Only-pve_nodes : (h : String) → P (Request.pve_nodes h) → Only P (ask (Request.pve_nodes h))
  Only-pve_nodes h p = Only-ask _ p

  pub Only-pve_guests :
      (h n : String) (k : Kind)
      → P (Request.pve_guests h n k)
      → Only P (ask (Request.pve_guests h n k))
  Only-pve_guests h n k p = Only-ask _ p

  pub Only-pve_config :
      (h n : String) (k : Kind) (i : ℕ)
      → P (Request.pve_config h n k i)
      → Only P (ask (Request.pve_config h n k i))
  Only-pve_config h n k i p = Only-ask _ p

  pub Only-pve_agent :
      (h n : String) (i : ℕ) → P (Request.pve_agent h n i) → Only P (ask (Request.pve_agent h n i))
  Only-pve_agent h n i p = Only-ask _ p

  pub Only-zones_page :
      (s : String) (n : ℕ) → P (Request.zones_page s n) → Only P (ask (Request.zones_page s n))
  Only-zones_page s n h = Only-ask _ h

  pub Only-zone_records :
      (s z : String) → P (Request.zone_records s z) → Only P (ask (Request.zone_records s z))
  Only-zone_records s z h = Only-ask _ h

  pub Only-dhcp_scopes :
      (s : String) → P (Request.dhcp_scopes s) → Only P (ask (Request.dhcp_scopes s))
  Only-dhcp_scopes s h = Only-ask _ h

  pub Only-dhcp_leases :
      (s : String) → P (Request.dhcp_leases s) → Only P (ask (Request.dhcp_leases s))
  Only-dhcp_leases s h = Only-ask _ h

  pub Only-ping : (ips : List String) → P (Request.ping ips) → Only P (ask (Request.ping ips))
  Only-ping ips h = Only-ask _ h

  pub Only-collect :
      (d h u w c : String)
      → P (Request.collect d h u w c)
      → Only P (ask (Request.collect d h u w c))
  Only-collect d h u w c p = Only-ask _ p

  pub Only-collect_macs :
      (d h u w c : String)
      → P (Request.collect_macs d h u w c)
      → Only P (ask (Request.collect_macs d h u w c))
  Only-collect_macs d h u w c p = Only-ask _ p

  pub Only-device_secrets :
      (i : ℕ) → P (Request.device_secrets i) → Only P (ask (Request.device_secrets i))
  Only-device_secrets i h = Only-ask _ h

  pub Only-upsert_host :
      (h : HostState) → P (Request.upsert_host h) → Only P (ask (Request.upsert_host h))
  Only-upsert_host h p = Only-ask _ p

  pub Only-update_stale :
      (k : String) (b : Bool)
      → P (Request.update_stale k b)
      → Only P (ask (Request.update_stale k b))
  Only-update_stale k b p = Only-ask _ p

  pub Only-delete_host :
      (k : String) → P (Request.delete_host k) → Only P (ask (Request.delete_host k))
  Only-delete_host k p = Only-ask _ p

  pub Only-upsert_kv :
      (k v : String) → P (Request.upsert_kv k v) → Only P (ask (Request.upsert_kv k v))
  Only-upsert_kv k v p = Only-ask _ p

  pub Only-delete_kv : (k : String) → P (Request.delete_kv k) → Only P (ask (Request.delete_kv k))
  Only-delete_kv k p = Only-ask _ p

pub ruleset only_rules = (
  Only-monotonic, Only-load_oui, Only-arp_table, Only-reverse_dns, Only-fetch_cert, Only-wait,
  Only-zones_page, Only-zone_records, Only-dhcp_scopes, Only-dhcp_leases, only_pure, only_raise,
  Only-ask, Only-try_catch, Only-bind, Only-for_each, Only-if, Only-maybe, Only-either, Only-update,
  Only-delete, Only-get, Only-filter, Only-netbox_version, Only-select_host, Only-select_kv,
  Only-select_kv_like, Only-time, Only-now_iso, Only-ping, Only-collect, Only-collect_macs,
  Only-device_secrets, Only-upsert_host, Only-update_stale, Only-delete_host, Only-upsert_kv,
  Only-delete_kv,
)
