-- ===== src/Driver.antt =====
-- The Linux driver src/kernel/linux/sharedgl.c, which maps the shared memory for the clients of a
-- guest: what `pci_probe` acquires, and what its error path and `pci_remove` release. The kernel's
-- calls are parameters: each gives an error number, and 0 where it succeeds.
pub mod Handles
pub mod Nodes
pub mod Bars
pub mod Labels
pub mod Probe
mod Tests
use sharedgl.Prelude.{
  ℕ, zero, suc, ◌+◌, Bool, true, false, ◌||◌, not, Option, none, some, ◌==◌, ltb, if◌then◌else◌,
}

-- What `ioremap` returns: an error as a pointer, a null pointer, which is how it fails, or a mapping.
pub data Remapped : Type 0 where
  err_ptr : ℕ → Remapped
  null : Remapped
  mapped : Remapped

-- The results of the calls of one probe; `mem_bars` is the bit mask of `pci_select_bars`, and
-- `unset_len` is what the lengths hold in the memory that `kmalloc` returns.
pub record Kernel : Type 0 where
  pub kmalloc : Bool
  pub pci_enable_device_mem : ℕ
  pub mem_bars : ℕ → Bool
  pub pci_request_selected_regions : ℕ
  pub ioremap : ℕ → Remapped
  pub pci_resource_len : ℕ → ℕ
  pub alloc_chrdev_region : ℕ
  pub cdev_add : ℕ
  pub device_create : ℕ → ℕ
  pub unset_len : ℕ → ℕ

-- The resources of one kind that are held, one for each BAR; `fault` says that one was released that
-- was not held. A null pointer from `ioremap` is held as a mapping is: the driver does not tell them
-- apart, and `iounmap` ignores it.
pub record Held : Type 0 where
  pub has : ℕ → Bool
  pub fault : Bool

abbrev pub nothing : Held
nothing = record { has = λ _. false; fault = false }

abbrev pub acquire : ℕ → Held → Held
acquire i h = record { has = λ j. if j == i then true else h.has j; fault = h.fault }

abbrev pub release : ℕ → Held → Held
release i h = record {
  has = λ j. if j == i then false else h.has j;
  fault = h.fault || not (h.has i);
}

-- `struct pci_char`, of which `len` is kept, and what the driver holds of a device.
pub record Device : Type 0 where
  pub len : ℕ → ℕ
  pub memory : Bool
  pub enabled : Bool
  pub regions : Bool
  pub maps : Held
  pub chrdev : Bool
  pub cdev : Bool
  pub nodes : Held
  pub fault : Bool

abbrev pub enomem : ℕ
enomem = 12

abbrev pub enxio : ℕ
enxio = 6

abbrev pub eio : ℕ
eio = 5

abbrev pub set_len : (ℕ → ℕ) → ℕ → ℕ → ℕ → ℕ
set_len len i n j = if j == i then n else len j

-- `for (i--; i >= 0; i--)`, which releases what has a length.
unfoldable pub release_below : (ℕ → ℕ) → ℕ → Held → Held
release_below len zero h = h
release_below len (suc i) h = release_below len i (if len i == 0 then h else release i h)

-- `for (i = 0; i < 6; i++)`, which releases what has a length, with `n` rounds left.
unfoldable pub release_from : (ℕ → ℕ) → ℕ → ℕ → Held → Held
release_from len zero i h = h
release_from len (suc n) i h = release_from len n (i + 1) (if len i == 0 then h else release i h)

-- A loop that acquires ends with `err` and `i`; `err` is 0 where it ran to its end.
pub record Acquired : Type 0 where
  pub err : ℕ
  pub at : ℕ
  pub len : ℕ → ℕ
  pub held : Held

-- The loop over `ioremap`, with `n` rounds left.
unfoldable pub map_bars : Kernel → ℕ → ℕ → (ℕ → ℕ) → Held → Acquired
map_bars k zero i len h = record { err = 0; at = i; len = len; held = h }
map_bars k (suc n) i len h =
    if k.mem_bars i
    then elim (k.ioremap i) [
      | err_ptr e ↦ record { err = e; at = i; len = len; held = h }
      | null ↦ map_bars k n (i + 1) (set_len len i (k.pci_resource_len i)) (acquire i h)
      | mapped ↦ map_bars k n (i + 1) (set_len len i (k.pci_resource_len i)) (acquire i h)
    ]
    else map_bars k n (i + 1) (set_len len i 0) h

-- The loop over `device_create`, with `n` rounds left.
unfoldable pub create_nodes : Kernel → ℕ → ℕ → (ℕ → ℕ) → Held → Acquired
create_nodes k zero i len h = record { err = 0; at = i; len = len; held = h }
create_nodes k (suc n) i len h =
    if len i == 0
    then create_nodes k n (i + 1) len h
    else if k.device_create i == 0
    then create_nodes k n (i + 1) len (acquire i h)
    else record { err = k.device_create i; at = i; len = len; held = h }

abbrev pub kfree : Device → Device
kfree d = record d { memory = false; fault = d.fault || not d.memory }

abbrev pub pci_disable_device : Device → Device
pci_disable_device d = record d { enabled = false; fault = d.fault || not d.enabled }

abbrev pub pci_release_selected_regions : Device → Device
pci_release_selected_regions d = record d { regions = false; fault = d.fault || not d.regions }

abbrev pub unregister_chrdev_region : Device → Device
unregister_chrdev_region d = record d { chrdev = false; fault = d.fault || not d.chrdev }

abbrev pub cdev_del : Device → Device
cdev_del d = record d { cdev = false; fault = d.fault || not d.cdev }

-- The loops over `iounmap` and `device_destroy` of all BARs.
abbrev pub iounmap_all : Device → Device
iounmap_all d = record d { maps = release_from d.len 6 0 d.maps }

abbrev pub device_destroy_all : Device → Device
device_destroy_all d = record d { nodes = release_from d.len 6 0 d.nodes }

-- The labels of `pci_probe`; each runs on into the next.
unfoldable pub failure_pci_enable : ℕ → Device → ℕ × Device
failure_pci_enable err d = (err, kfree d)

unfoldable pub failure_pci_regions : ℕ → Device → ℕ × Device
failure_pci_regions err d = failure_pci_enable err (pci_disable_device d)

unfoldable pub failure_ioremap : ℕ → Device → ℕ × Device
failure_ioremap err d = failure_pci_regions err (pci_release_selected_regions d)

unfoldable pub failure_alloc_chrdev_region : ℕ → Device → ℕ × Device
failure_alloc_chrdev_region err d = failure_ioremap err (iounmap_all d)

unfoldable pub failure_cdev_add : ℕ → Device → ℕ × Device
failure_cdev_add err d = failure_alloc_chrdev_region err (unregister_chrdev_region d)

unfoldable pub failure_device_create : ℕ → Device → ℕ × Device
failure_device_create err d = failure_cdev_add err (cdev_del d)

-- `pci_probe` from `device_create` on, from `alloc_chrdev_region` on, and from `ioremap` on.
unfoldable pub probe_nodes : Kernel → Device → ℕ × Device
probe_nodes k d =
    let created = create_nodes k 6 0 d.len d.nodes in
    if created.err == 0
    then (0, record d { nodes = created.held })
    else failure_device_create created.err
        (record d { nodes = release_below d.len created.at created.held })

unfoldable pub probe_chrdev : Kernel → Device → ℕ × Device
probe_chrdev k d =
    if k.alloc_chrdev_region == 0
    then (if k.cdev_add == 0
        then probe_nodes k (record d { chrdev = true; cdev = true })
        else failure_cdev_add k.cdev_add (record d { chrdev = true }))
    else failure_alloc_chrdev_region k.alloc_chrdev_region d

unfoldable pub probe_bars : Kernel → Device → ℕ × Device
probe_bars k d =
    let bars = map_bars k 6 0 d.len d.maps in
    if bars.err == 0
    then probe_chrdev k (record d { len = bars.len; maps = bars.held })
    else failure_ioremap bars.err
        (record d { len = bars.len; maps = release_below bars.len bars.at bars.held })

-- The driver before it has seen the device.
abbrev pub unclaimed : Kernel → Device
unclaimed k = record {
  len = k.unset_len;
  memory = false;
  enabled = false;
  regions = false;
  maps = nothing;
  chrdev = false;
  cdev = false;
  nodes = nothing;
  fault = false;
}

-- The error number, and 0 for success.
unfoldable pub pci_probe : Kernel → ℕ × Device
pci_probe k =
    let d = unclaimed k in
    if not k.kmalloc
    then (enomem, d)
    else if k.pci_enable_device_mem == 0
    then (if k.pci_request_selected_regions == 0
        then probe_bars k (record d { memory = true; enabled = true; regions = true })
        else failure_pci_regions k.pci_request_selected_regions
            (record d { memory = true; enabled = true }))
    else failure_pci_enable k.pci_enable_device_mem (record d { memory = true })

unfoldable pub pci_remove : Device → Device
pci_remove d = kfree (
    pci_disable_device (
      pci_release_selected_regions
        (iounmap_all (unregister_chrdev_region (cdev_del (device_destroy_all d))))))

-- `dev_open` of the node with the minor number `num`.
unfoldable pub dev_open : ℕ → Device → ℕ
dev_open num d = if ltb 5 num then enxio else if d.len num == 0 then eio else 0
