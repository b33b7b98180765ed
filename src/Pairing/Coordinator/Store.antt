-- ===== src/Pairing/Coordinator/Store.antt =====
-- src/pairing/pairing_coordinator.cpp: the paired clients, in memory and in the preferences.
pub mod Mode
pub mod Peers
pub mod Update
pub mod Durable
pub mod Table
use ungula_lib_net.Base.{
  ℕ, suc, Bool, true, false, not, ◌&&◌, List, [], ◌∷◌, Option, none, some, ◌==◌, if◌then◌else◌,
  length, set,
}
use ungula_lib_net.Comm.Types.{MacAddress, addr_len, addr, is_zero, write_bytes}
use ungula_lib_net.Comm.Transport.{Transport}
use ungula_lib_net.Preferences.{Preferences}
use ungula_lib_net.Pairing.Coordinator.{
  PairedClientInfo, empty_slot, PairingCoordinator, mac_key, id_key, find_mac, find_free,
  find_device, slot_at,
}

module _ {T P : Type 0} ⦃tr : Transport T⦄ ⦃pf : Preferences P⦄ where
  -- One round of the loop of `loadPairedClients`, in the open preferences `p`.
  load_slot : P → ℕ → PairedClientInfo → T → PairedClientInfo × T
  load_slot p i x t =
      let bytes = pf.get_bytes (mac_key i) addr_len p in
      let mac = write_bytes bytes x.mac in
      if length bytes == addr_len && not (is_zero mac)
      then (
        record { mac = mac; device_id = pf.get_u8 (id_key i) 0 p; active = true },
        (tr.add_peer mac 0 t).0,
      )
      else (record x { mac = mac }, t)

  load_slots : P → ℕ → List PairedClientInfo → T → List PairedClientInfo × T
  unfolding load_slot
  load_slots p i [] t = ([], t)
  load_slots p i (x ∷ xs) t =
      let (x', t') = load_slot p i x t in
      let (xs', t'') = load_slots p (suc i) xs t' in (x' ∷ xs', t'')

  unfoldable pub load_paired_clients : PairingCoordinator T P → PairingCoordinator T P
  unfolding load_slots is_zero write_bytes
  load_paired_clients c =
      let opened = (pf.begin c.prefs_ns c.prefs).0 in
      let (clients, transport) = load_slots opened 0 c.clients c.transport in
      record c { prefs = pf.close opened; clients = clients; transport = transport }

  -- One round of the loop of `unpairAll`.
  unpair_slots : ℕ → List PairedClientInfo → T → P → List PairedClientInfo × T × P
  unpair_slots i [] t p = ([], t, p)
  unpair_slots i (x ∷ xs) t p =
      let t' = if x.active then (tr.remove_peer x.mac t).0 else t in
      let p' = if pf.has_key (mac_key i) p then pf.remove (mac_key i) p else p in
      let p'' = if pf.has_key (id_key i) p' then pf.remove (id_key i) p' else p' in
      let (xs', t'', p3) = unpair_slots (suc i) xs t' p'' in (empty_slot ∷ xs', t'', p3)

  unfoldable pub unpair_all : PairingCoordinator T P → PairingCoordinator T P
  unfolding unpair_slots
  unpair_all c =
      let (clients, transport, p) =
        unpair_slots 0 c.clients c.transport (pf.begin c.prefs_ns c.prefs).0 in
      record c { prefs = pf.close p; clients = clients; transport = transport }

  -- The end of `storePairedClient`: the client goes into slot `i`, and to the preferences.
  write_slot : ℕ → MacAddress → ℕ → PairingCoordinator T P → PairingCoordinator T P
  write_slot i mac id c =
      let p1 = (pf.begin c.prefs_ns c.prefs).0 in
      let p2 = (pf.put_bytes (mac_key i) (addr mac) p1).0 in
      record c {
        clients = set c.clients i (record { mac = mac; device_id = id; active = true });
        prefs = pf.close (pf.put_u8 (id_key i) id p2);
      }

  -- A full table: the slot of a client with the same device number is taken over.
  replace_slot : Option ℕ → MacAddress → ℕ → PairingCoordinator T P → PairingCoordinator T P × Bool
  unfolding write_slot
  replace_slot none mac id c = (c, false)
  replace_slot (some i) mac id c = (
    write_slot i mac id
        (record c { transport = (tr.remove_peer (slot_at c.clients i).mac c.transport).0 }),
    true,
  )

  new_slot : Option ℕ → MacAddress → ℕ → PairingCoordinator T P → PairingCoordinator T P × Bool
  unfolding replace_slot write_slot
  new_slot (some i) mac id c = (write_slot i mac id c, true)
  new_slot none mac id c = replace_slot (find_device id 0 c.clients) mac id c

  known_slot : Option ℕ → MacAddress → ℕ → PairingCoordinator T P → PairingCoordinator T P × Bool
  unfolding new_slot
  known_slot (some i) mac id c = (
    record c { clients = set c.clients i (record (slot_at c.clients i) { device_id = id }) },
    true,
  )
  known_slot none mac id c = new_slot (find_free 0 c.clients) mac id c

  unfoldable pub store_paired_client :
      MacAddress → ℕ → PairingCoordinator T P → PairingCoordinator T P × Bool
  unfolding known_slot find_mac find_free find_device
  store_paired_client mac id c = known_slot (find_mac mac 0 c.clients) mac id c
