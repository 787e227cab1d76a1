-- ===== src/Fixture.antt =====
-- The objects that the host serves to the device's SDO client, class HostSdoServerFixture of
-- src/host_sdo_server_fixture.cpp. Every member function holds the master's lock, so that each is one
-- step of the model; what Lely's object dictionary answers is a parameter.
pub mod Owned
pub mod Examples
use canopen_slave_tester.Prelude.{
  ℕ, ◌+◌, ◌-◌, Bool, true, false, ◌&&◌, ◌||◌, Option, none, some, List, [], ◌∷◌, ◌==◌, not,
  if◌then◌else◌, length,
}
use canopen_slave_tester.Attempt.{Attempt, ◌>>=◌, ◌>>◌, return, require}

-- The answers of Lely, by the number of the call: whether it does what it is asked to, or gives an
-- object that is not null.
pub record Dictionary : Type 0 where
  pub obj_create : ℕ → Bool
  pub sub_create : ℕ → Bool
  pub sub_set_access : ℕ → Bool
  pub obj_insert_sub : ℕ → Bool
  pub sub_set_val : ℕ → Bool
  pub sub_set_u32 : ℕ → (value : ℕ) → Bool
  pub local_device : ℕ → Bool
  pub local_server : ℕ → Bool
  pub dev_find_obj : ℕ → Bool
  pub dev_insert_obj : ℕ → Bool
  pub dev_find_sub : ℕ → Bool
  pub sub_get_val : ℕ → ℕ
  pub sub_sizeof_val : ℕ → ℕ
  pub sub_addressof_val : ℕ → Option (List ℕ)
  -- The bytes that a write of a vector has written.
  pub sub_set_octets : ℕ → List ℕ → ℕ
  pub get_errc_is_zero : ℕ → Bool

-- An account of what Lely has allocated for the fixture, kept for the theorems by what the calls are
-- documented to do: the objects, newest first, and the number of sub-objects that belong to no object.
-- An object that is destroyed takes its sub-object with it.
pub record Heap : Type 0 where
  pub calls : ℕ
  pub objects : List ℕ
  pub loose_subs : ℕ
  pub next_object : ℕ

pub record HostSdoServerFixture : Type 0 where
  pub u32_object : Option ℕ
  pub octets_object : Option ℕ
  pub readonly_object : Option ℕ
  pub installed : Bool
  pub heap : Heap

abbrev pub called : Heap → Heap
called s = record s { calls = s.calls + 1 }

unfoldable pub without : ℕ → List ℕ → List ℕ
without object [] = []
without object (o ∷ os) = let rest = without object os in if o == object then os else o ∷ rest

abbrev pub obj_destroy : ℕ → Heap → Heap
obj_destroy object s = record s { objects = without object s.objects }

abbrev pub sub_destroy : Heap → Heap
sub_destroy s = record s { loose_subs = s.loose_subs - 1 }

module _ (d : Dictionary) where
  -- From the allocated object on.
  unfoldable pub fill_object : (candidate : ℕ) → Attempt Heap ℕ
  fill_object candidate s =
      let without_sub = called s in
      let created = record s { calls = s.calls + 1; loose_subs = s.loose_subs + 1 } in
      let accessible = called created in
      let inserted = sub_destroy (called accessible) in
      if not (d.sub_create s.calls)
      then (none, obj_destroy candidate without_sub)
      else if not (d.sub_set_access created.calls)
      then (none, obj_destroy candidate (sub_destroy accessible))
      else if not (d.obj_insert_sub accessible.calls)
      then (none, obj_destroy candidate (sub_destroy (called accessible)))
      else if not (d.sub_set_val inserted.calls)
      then (none, obj_destroy candidate (called inserted))
      else (some candidate, called inserted)

  -- `createU32Object` and `createOctetObject`, which make the same calls.
  unfoldable pub create_object : Attempt Heap ℕ
  create_object s =
      let candidate = s.next_object in
      let allocated = record s {
        calls = s.calls + 1;
        objects = candidate ∷ s.objects;
        next_object = candidate + 1;
      } in
      if not (d.obj_create s.calls) then (none, called s) else fill_object candidate allocated

  abbrev pub on_heap : {A : Type 0} → Attempt Heap A → Attempt HostSdoServerFixture A
  on_heap p f = let (r, t) = p f.heap in (r, record f { heap = t })

  abbrev pub hold :
      (HostSdoServerFixture → HostSdoServerFixture) → Attempt HostSdoServerFixture (Unit {0})
  hold change f = (some tt, change f)

  unfoldable pub insert_obj : Attempt Heap (Unit {0})
  insert_obj s = require (d.dev_insert_obj s.calls) (called s)

  unfoldable pub create_and_insert : Attempt HostSdoServerFixture (Unit {0})
  create_and_insert = do
    u32 ← on_heap create_object
    hold (λ (f : HostSdoServerFixture). record f { u32_object = some u32 })
    octets ← on_heap create_object
    hold (λ (f : HostSdoServerFixture). record f { octets_object = some octets })
    readonly ← on_heap create_object
    hold (λ (f : HostSdoServerFixture). record f { readonly_object = some readonly })
    on_heap insert_obj
    on_heap insert_obj
    on_heap insert_obj

  abbrev pub destroy_some : Option ℕ → Heap → Heap
  destroy_some none s = s
  destroy_some (some object) s = obj_destroy object s

  unfoldable pub uninstall_locked : HostSdoServerFixture → HostSdoServerFixture
  uninstall_locked f = record {
    u32_object = none;
    octets_object = none;
    readonly_object = none;
    installed = false;
    heap =
        destroy_some f.u32_object
          (destroy_some f.octets_object (destroy_some f.readonly_object f.heap));
  }

  -- `none` is the result false: there is no device or server, or an index is in use.
  unfoldable pub preflight : Attempt Heap (Unit {0})
  preflight s =
      let t = record s { calls = s.calls + 5 } in
      require
        (d.local_device s.calls
          && d.local_server (s.calls + 1)
          && not (
              d.dev_find_obj (s.calls + 2)
              || d.dev_find_obj (s.calls + 3)
              || d.dev_find_obj (s.calls + 4)))
        t

  unfoldable pub install : HostSdoServerFixture → Bool × HostSdoServerFixture
  install f =
      let (checked, g) = on_heap preflight f in
      let (created, k) = create_and_insert g in
      if f.installed then (true, f) else elim checked [
        | none ↦ (false, g)
        | some _ ↦ elim created [
          | none ↦ (false, uninstall_locked k)
          | some _ ↦ (true, record k { installed = true })
        ]
      ]

  -- Whether the fixture is installed and its sub-object is found.
  unfoldable pub find_sub : HostSdoServerFixture → Attempt Heap (Unit {0})
  find_sub f s =
      require (f.installed && d.local_device s.calls && d.dev_find_sub (s.calls + 1))
        (record s { calls = s.calls + 2 })

  unfoldable pub read_u32 : Attempt HostSdoServerFixture ℕ
  read_u32 f = on_heap (do find_sub f; λ s. (some (d.sub_get_val s.calls), called s)) f

  unfoldable pub write_u32 : (value : ℕ) → Attempt HostSdoServerFixture (Unit {0})
  write_u32 value f =
      on_heap (do find_sub f; λ s. require (d.sub_set_u32 s.calls value) (called s)) f

  unfoldable pub octets_of : (size : ℕ) → Option (List ℕ) → Option (List ℕ)
  octets_of size address = if size == 0 then some [] else address

  unfoldable pub read_octets : Attempt HostSdoServerFixture (List ℕ)
  read_octets f =
      on_heap
        (do
          find_sub f
          λ s. (octets_of (d.sub_sizeof_val s.calls) (d.sub_addressof_val s.calls), called s))
        f

  unfoldable pub write_octets : List ℕ → Attempt HostSdoServerFixture (Unit {0})
  write_octets value f =
      on_heap
        (do
          find_sub f
          λ s.
              let written = d.sub_set_octets s.calls value in
              require
                (written == length value && (not (written == 0) || d.get_errc_is_zero s.calls))
                (called s))
        f
