-- ===== src/SdoClient/Process/Owned.antt =====
-- What the MCU SDO client validation leaves of the host's own objects (src/sdo_client_process.cpp).
use canopen_slave_tester.Prelude.{ℕ, refl, inl, inr, Bool, List, arith, Option-cases}
use canopen_slave_tester.Host.{Host, Session}
use canopen_slave_tester.Attempt.{Attempt}
use canopen_slave_tester.Attempt.Keeps.{Keeps, keeps_rules}
use canopen_slave_tester.Fixture.{
  Dictionary, Heap, HostSdoServerFixture, find_sub, read_u32, write_u32, read_octets, write_octets,
  uninstall_locked,
}
use canopen_slave_tester.Fixture.Owned.{IsEmpty, SameHeap, install-owned}
use canopen_slave_tester.SdoClient.Expect.{ClientSession, by_session, by_fixture}
use canopen_slave_tester.SdoClient.Process.{
  verify_missing_node_precondition, restore_fixture_u32, restore_fixture_octets, install_fixture,
  remote_cases, installed_cases, client_cases, with_fixture, sdo_client_process,
}
use canopen_slave_tester.SdoClient.Process.Kept.{remote_cases-kept}

-- Uninstalling the fixture would give back all that has been allocated since.
abbrev IsOwned : Dictionary → Heap → HostSdoServerFixture → Type 0
IsOwned d old f = SameHeap (uninstall_locked d f).heap old

module _ (d : Dictionary) (old : Heap) where
  read_u32-IsOwned : Keeps (IsOwned d old) (read_u32 d)
  unfolding read_u32 find_sub uninstall_locked
  read_u32-IsOwned = record { at = λ f k. ground (arith, k) }

  write_u32-IsOwned : (value : ℕ) → Keeps (IsOwned d old) (write_u32 d value)
  unfolding write_u32 find_sub uninstall_locked
  write_u32-IsOwned value = record { at = λ f k. ground (arith, k) }

  read_octets-IsOwned : Keeps (IsOwned d old) (read_octets d)
  unfolding read_octets find_sub uninstall_locked
  read_octets-IsOwned = record { at = λ f k. ground (arith, k) }

  write_octets-IsOwned : (bytes : List ℕ) → Keeps (IsOwned d old) (write_octets d bytes)
  unfolding write_octets find_sub uninstall_locked
  write_octets-IsOwned bytes = record { at = λ f k. ground (arith, k) }

  ruleset fixture_rules =
      (keeps_rules, read_u32-IsOwned, write_u32-IsOwned, read_octets-IsOwned, write_octets-IsOwned)

  restore_u32-IsOwned :
      (h : Host) (value : ℕ) → Keeps (IsOwned d old) (restore_fixture_u32 h d value)
  unfolding restore_fixture_u32
  restore_u32-IsOwned h value = search (fixture_rules) depth 20

  restore_octets-IsOwned :
      (h : Host) (bytes : List ℕ) → Keeps (IsOwned d old) (restore_fixture_octets h d bytes)
  unfolding restore_fixture_octets
  restore_octets-IsOwned h bytes = search (fixture_rules) depth 20

uninstalled : (d : Dictionary) (f : HostSdoServerFixture) → IsEmpty (uninstall_locked d f)
unfolding uninstall_locked
uninstalled d f = (refl, refl, refl, refl)

module _ (h : Host) (d : Dictionary) where
  abbrev Owned : Heap → ClientSession → Type 0
  Owned old c = IsOwned d old c.fixture

  by_session-Owned :
      {A : Type 0} (old : Heap) (p : Attempt Session A) → Keeps (Owned old) (by_session p)
  by_session-Owned old p = record { at = λ c k. k }

  by_fixture-Owned :
      {A : Type 0} (old : Heap) (p : Attempt HostSdoServerFixture A)
      → Keeps (IsOwned d old) p
      → Keeps (Owned old) (by_fixture p)
  by_fixture-Owned old p kp = record { at = λ c k. kp.at c.fixture k }

  remote_cases-Owned : (old : Heap) (b : Bool) → Keeps (Owned old) (remote_cases h d b)
  remote_cases-Owned old b =
      remote_cases-kept h d (Owned old) (λ request. by_session-Owned old _)
        (λ node index expected. by_session-Owned old _) (λ remote. by_session-Owned old _)
        (by_fixture-Owned old _ (read_u32-IsOwned d old))
        (by_fixture-Owned old _ (read_octets-IsOwned d old))
        (λ bytes. by_fixture-Owned old _ (write_octets-IsOwned d old bytes))
        (λ value. by_fixture-Owned old _ (restore_u32-IsOwned d old h value))
        (λ bytes. by_fixture-Owned old _ (restore_octets-IsOwned d old h bytes)) b

  install_fixture-IsOwned :
      (f : HostSdoServerFixture) → IsEmpty f → IsOwned d f.heap (install_fixture h d f).1
  unfolding install_fixture
  install_fixture-IsOwned f e = let owned = (install-owned d f e).1 in ground (arith, owned)

  installed_cases-Owned : (old : Heap) (b : Bool) → Keeps (Owned old) (installed_cases h d b)
  unfolding installed_cases
  installed_cases-Owned old b = search (keeps_rules, by_session-Owned, remote_cases-Owned) depth 20

  client_cases-Owned :
      (b : Bool) (c : ClientSession)
      → IsEmpty c.fixture
      → Owned c.fixture.heap (client_cases h d b c).1
  unfolding client_cases
  client_cases-Owned b c e =
      let installed = install_fixture-IsOwned c.fixture e in
      let f = (by_fixture (install_fixture h d) c).1 in
      ground (arith, installed, (installed_cases-Owned c.fixture.heap b).at f installed)

  -- Whatever comes of an SDO client validation that starts with an empty fixture, it leaves the host's
  -- fixture uninstalled and empty, and all that it has allocated for the fixture is given back.
  pub sdo_client_process-owned :
      (block_regression : Bool) (c : ClientSession)
      → IsEmpty c.fixture
      → IsEmpty (sdo_client_process h d block_regression c).1.fixture
        × SameHeap (sdo_client_process h d block_regression c).1.fixture.heap c.fixture.heap
  unfolding sdo_client_process with_fixture
  sdo_client_process-owned b c e =
      let p = verify_missing_node_precondition h d c.session in
      let g : ClientSession = record c { session = p.1 } in
      let owned = client_cases-Owned b g e in
      elim (Option-cases p.0) [
        | inl q ↦ (ground (arith, e, q), ground (arith, q))
        | inr (_, q) ↦ (
          ground (arith, q, uninstalled d (client_cases h d b g).1.fixture),
          ground (arith, q, owned),
        )
      ]
