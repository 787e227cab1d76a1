-- ===== src/Fixture/Examples.antt =====
-- An installation of the SDO server fixture that fails (src/host_sdo_server_fixture.cpp).
use canopen_slave_tester.Prelude.{◌≡◌, ◌⊎◌, refl, true, false, none, [], ◌∷◌, ltb}
use canopen_slave_tester.Fixture.{Dictionary, HostSdoServerFixture, uninstall_locked, install}
use canopen_slave_tester.Fixture.Owned.{IsEmpty, SameHeap, install-owned}

-- Lely finds no object in use, and refuses the second insertion into the device.
abbrev refusing : Dictionary
refusing = record {
  obj_create = λ i. true;
  sub_create = λ i. true;
  sub_set_access = λ i. true;
  obj_insert_sub = λ i. true;
  sub_set_val = λ i. true;
  sub_set_u32 = λ i value. true;
  local_device = λ i. true;
  local_server = λ i. true;
  dev_find_obj = λ i. false;
  dev_insert_obj = λ i. ltb i 21;
  dev_find_sub = λ i. true;
  sub_get_val = λ i. 0;
  sub_sizeof_val = λ i. 0;
  sub_addressof_val = λ i. none;
  sub_set_octets = λ i value. 0;
  get_errc_is_zero = λ i. true;
}

abbrev empty : HostSdoServerFixture
empty = record {
  u32_object = none;
  octets_object = none;
  readonly_object = none;
  installed = false;
  heap = record { calls = 0; objects = 7 ∷ []; loose_subs = 0; next_object = 8 };
}

install-owned_example :
    let r = install refusing empty in
    (((r.0 ≡ true) × (r.1.installed ≡ true))
      ⊎ ((r.0 ≡ false) × IsEmpty r.1 × SameHeap r.1.heap empty.heap))
    × SameHeap (uninstall_locked refusing r.1).heap empty.heap
install-owned_example = install-owned refusing empty (refl, refl, refl, refl)
