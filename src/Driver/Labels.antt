-- ===== src/Driver/Labels.antt =====
-- What the labels of `pci_probe` of src/kernel/linux/sharedgl.c release.
use sharedgl.Prelude.{ℕ, ◌<◌, ◌≡◌, ◌≢◌, refl, ◌∙◌, Bool, true, false, ◌==◌, arith}
use sharedgl.Driver.{
  Kernel, Held, nothing, Device, release_from, failure_pci_enable, failure_pci_regions,
  failure_ioremap, failure_alloc_chrdev_region, failure_cdev_add, failure_device_create,
}
use sharedgl.Driver.Handles.{Exact, Empty, release_from-Empty}
use sharedgl.Driver.Bars.{bar_len}

-- Nothing is held, and nothing was released that was not held.
pub record Clean (d : Device) : Type 0 where
  pub memory : d.memory ≡ false
  pub enabled : d.enabled ≡ false
  pub regions : d.regions ≡ false
  pub maps : Empty d.maps
  pub chrdev : d.chrdev ≡ false
  pub cdev : d.cdev ≡ false
  pub nodes : Empty d.nodes
  pub sound : d.fault ≡ false

-- All is held, a mapping and a node for each of the six BARs that has memory.
pub record Claimed (k : Kernel) (d : Device) : Type 0 where
  pub memory : d.memory ≡ true
  pub enabled : d.enabled ≡ true
  pub regions : d.regions ≡ true
  pub maps : Exact d.len 0 6 d.maps
  pub chrdev : d.chrdev ≡ true
  pub cdev : d.cdev ≡ true
  pub nodes : Exact d.len 0 6 d.nodes
  pub lens : (i : ℕ) → i < 6 → d.len i ≡ bar_len k i
  pub sound : d.fault ≡ false

pub nothing-Empty : Empty nothing
nothing-Empty = record { none_held = λ k. refl; sound = refl }

-- What is held at the labels.
abbrev pub holding : (ℕ → ℕ) → Held → Bool → Bool → Held → Device
holding len maps chrdev cdev nodes = record {
  len = len;
  memory = true;
  enabled = true;
  regions = true;
  maps = maps;
  chrdev = chrdev;
  cdev = cdev;
  nodes = nodes;
  fault = false;
}

pub failure_ioremap-Clean :
    (e : ℕ) (len : ℕ → ℕ) (maps nodes : Held)
    → Empty maps
    → Empty nodes
    → Clean (failure_ioremap e (holding len maps false false nodes)).1
unfolding failure_ioremap failure_pci_regions failure_pci_enable
failure_ioremap-Clean e len maps nodes m n = record {
  memory = refl;
  enabled = refl;
  regions = refl;
  maps = m;
  chrdev = refl;
  cdev = refl;
  nodes = n;
  sound = refl;
}

pub failure_alloc_chrdev_region-Clean :
    (e : ℕ) (len : ℕ → ℕ) (maps nodes : Held)
    → Exact len 0 6 maps
    → Empty nodes
    → Clean (failure_alloc_chrdev_region e (holding len maps false false nodes)).1
unfolding failure_alloc_chrdev_region
failure_alloc_chrdev_region-Clean e len maps nodes m n =
    failure_ioremap-Clean e len (release_from len 6 0 maps) nodes
      (release_from-Empty len 6 0 6 maps refl m) n

pub failure_cdev_add-Clean :
    (e : ℕ) (len : ℕ → ℕ) (maps nodes : Held)
    → Exact len 0 6 maps
    → Empty nodes
    → Clean (failure_cdev_add e (holding len maps true false nodes)).1
unfolding failure_cdev_add
failure_cdev_add-Clean e len maps nodes m n = failure_alloc_chrdev_region-Clean e len maps nodes m n

pub failure_device_create-Clean :
    (e : ℕ) (len : ℕ → ℕ) (maps nodes : Held)
    → Exact len 0 6 maps
    → Empty nodes
    → Clean (failure_device_create e (holding len maps true true nodes)).1
unfolding failure_device_create
failure_device_create-Clean e len maps nodes m n = failure_cdev_add-Clean e len maps nodes m n

-- The error number of the labels is the one that they are reached with.
pub failure_device_create-err : (e : ℕ) (d : Device) → (failure_device_create e d).0 ≡ e
unfolding failure_device_create failure_cdev_add failure_alloc_chrdev_region failure_ioremap
    failure_pci_regions failure_pci_enable
failure_device_create-err e d = refl

pub failure_cdev_add-err : (e : ℕ) (d : Device) → (failure_cdev_add e d).0 ≡ e
unfolding failure_cdev_add failure_alloc_chrdev_region failure_ioremap failure_pci_regions
    failure_pci_enable
failure_cdev_add-err e d = refl

pub failure_alloc_chrdev_region-err : (e : ℕ) (d : Device) → (failure_alloc_chrdev_region e d).0 ≡ e
unfolding failure_alloc_chrdev_region failure_ioremap failure_pci_regions failure_pci_enable
failure_alloc_chrdev_region-err e d = refl

pub failure_ioremap-err : (e : ℕ) (d : Device) → (failure_ioremap e d).0 ≡ e
unfolding failure_ioremap failure_pci_regions failure_pci_enable
failure_ioremap-err e d = refl

-- A part of the probe ends with the error `e`.
pub record Probed (k : Kernel) (e : ℕ) (r : ℕ × Device) : Type 0 where
  pub err : r.0 ≡ e
  pub failed : r.0 ≢ 0 → Clean r.1
  pub claimed : r.0 ≡ 0 → Claimed k r.1

pub Probed-same : (k : Kernel) (e e' : ℕ) (r : ℕ × Device) → e ≡ e' → Probed k e r → Probed k e' r
Probed-same k e e' r q p = record { err = p.err ∙ q; failed = p.failed; claimed = p.claimed }

-- A label that was reached with the error `c`.
pub Probed-failed :
    (k : Kernel) (e c : ℕ) (r : ℕ × Device)
    → r.0 ≡ c
    → c ≡ e
    → (c == 0) ≡ false
    → Clean r.1
    → Probed k e r
Probed-failed k e c r q t z x = record {
  err = q ∙ t;
  failed = λ n. x;
  claimed = λ n. absurd (ground (arith, z, q, n));
}
