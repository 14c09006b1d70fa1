-- ===== src/Driver/Probe.antt =====
-- `pci_probe` and `pci_remove` of src/kernel/linux/sharedgl.c.
use sharedgl.Prelude.{
  ℕ, ◌<◌, ◌≡◌, ◌≢◌, ◌↔◌, inl, inr, refl, ◌∙◌, sym, true, false, ◌==◌, if◌then◌else◌, arith,
  Bool-cases,
}
use sharedgl.Driver.{
  Kernel, Held, nothing, Device, enomem, map_bars, create_nodes, release_below, unclaimed,
  pci_probe, probe_bars, probe_chrdev, probe_nodes, pci_remove, failure_pci_enable,
  failure_pci_regions, dev_open,
}
use sharedgl.Driver.Handles.{
  Exact, Empty-Exact, release_below-Empty, release_from-Empty, Exact-cast,
}
use sharedgl.Driver.Nodes.{
  first, nodes_error, create_nodes-Collected, create_nodes-len, nodes_error-same,
}
use sharedgl.Driver.Bars.{Sane, bar_len, bars_error, map_bars-BarsMapped}
use sharedgl.Driver.Labels.{
  Clean, Claimed, nothing-Empty, holding, failure_ioremap-Clean, failure_alloc_chrdev_region-Clean,
  failure_cdev_add-Clean, failure_device_create-Clean, failure_device_create-err,
  failure_cdev_add-err, failure_alloc_chrdev_region-err, failure_ioremap-err, Probed, Probed-same,
  Probed-failed,
}

probe_nodes-Probed :
    (k : Kernel) (len : ℕ → ℕ) (maps : Held)
    → Exact len 0 6 maps
    → ((i : ℕ) → i < 6 → len i ≡ bar_len k i)
    → Probed k (nodes_error k 6 0 len) (probe_nodes k (holding len maps true true nothing))
unfolding probe_nodes
probe_nodes-Probed k len maps m l =
    let r = create_nodes k 6 0 len nothing in
    let c = create_nodes-Collected k 6 0 len nothing (Empty-Exact len 0 nothing nothing-Empty) in
    elim (Bool-cases (r.err == 0)) [
      | inl z ↦
          let s : r.err ≡ 0 = ground (arith, z) in
          let full =
            Exact-cast r.len len r.at 6 r.held (create_nodes-len k 6 0 len nothing) (c.complete s)
              c.exact in
          rw z (record {
            err = sym s ∙ c.err;
            failed = λ q. absurd (q refl);
            claimed = λ q. record {
              memory = refl;
              enabled = refl;
              regions = refl;
              maps = m;
              chrdev = refl;
              cdev = refl;
              nodes = full;
              lens = l;
              sound = refl;
            };
          })
      | inr z ↦
          let part =
            Exact-cast r.len len r.at r.at r.held (create_nodes-len k 6 0 len nothing) refl
              c.exact in
          let clean =
            failure_device_create-Clean r.err len maps (release_below len r.at r.held) m
              (release_below-Empty len r.at r.held part) in
          let stopped : r.err ≡ nodes_error k 6 0 len = c.err in
          let differs : (r.err == 0) ≡ false = z in
          rw z (
            Probed-failed k (nodes_error k 6 0 len) r.err _ (failure_device_create-err r.err _)
              stopped differs clean)
    ]

-- From `alloc_chrdev_region` on.
chrdev_error : Kernel → ℕ
chrdev_error k = first k.alloc_chrdev_region (first k.cdev_add (nodes_error k 6 0 (bar_len k)))

probe_chrdev-Probed :
    (k : Kernel) (len : ℕ → ℕ) (maps : Held)
    → Exact len 0 6 maps
    → ((i : ℕ) → i < 6 → len i ≡ bar_len k i)
    → Probed k (chrdev_error k) (probe_chrdev k (holding len maps false false nothing))
unfolding probe_chrdev chrdev_error
probe_chrdev-Probed k len maps m l = elim (Bool-cases (k.alloc_chrdev_region == 0)) [
  | inr z ↦ rw z (
      Probed-failed k k.alloc_chrdev_region k.alloc_chrdev_region _
        (failure_alloc_chrdev_region-err _ _) refl z
        (failure_alloc_chrdev_region-Clean _ len maps nothing m nothing-Empty))
  | inl z ↦ rw z (elim (Bool-cases (k.cdev_add == 0)) [
    | inr y ↦ rw y (
        Probed-failed k k.cdev_add k.cdev_add _ (failure_cdev_add-err _ _) refl y
          (failure_cdev_add-Clean _ len maps nothing m nothing-Empty))
    | inl y ↦ rw y (
        Probed-same k _ _ _ (nodes_error-same k 6 0 len (bar_len k) (λ j a b. l j b))
          (probe_nodes-Probed k len maps m l))
  ])
]

-- From `ioremap` on.
pub mapping_error : Kernel → ℕ
mapping_error k = first (bars_error k 6 0) (chrdev_error k)

probe_bars-Probed :
    (k : Kernel)
    → Sane k
    → Probed k (mapping_error k) (probe_bars k (holding k.unset_len nothing false false nothing))
unfolding probe_bars mapping_error
probe_bars-Probed k p =
    let r = map_bars k 6 0 k.unset_len nothing in
    let m =
      map_bars-BarsMapped k 6 0 k.unset_len nothing p
        (Empty-Exact k.unset_len 0 nothing nothing-Empty) in
    let stopped : r.err ≡ bars_error k 6 0 = m.collected.err in
    elim (Bool-cases (r.err == 0)) [
      | inl z ↦
          let s : r.err ≡ 0 = ground (arith, z) in
          let e : chrdev_error k ≡ first (bars_error k 6 0) (chrdev_error k) =
            ground (arith, s, stopped) in
          rw z (
            Probed-same k _ _ _ e (
              probe_chrdev-Probed k r.len r.held
                (Exact-cast r.len r.len r.at 6 r.held refl (m.collected.complete s)
                  m.collected.exact)
                (λ i h. m.lens s i (omega arith) (omega arith))))
      | inr z ↦
          let e : r.err ≡ first (bars_error k 6 0) (chrdev_error k) = ground (arith, z, stopped) in
          let clean =
            failure_ioremap-Clean r.err r.len (release_below r.len r.at r.held) nothing
              (release_below-Empty r.len r.at r.held m.collected.exact) nothing-Empty in
          let differs : (r.err == 0) ≡ false = z in
          rw z (Probed-failed k _ r.err _ (failure_ioremap-err r.err _) e differs clean)
    ]

-- The error number of the first of the probe's calls that fails, in the order of the calls, and 0
-- where none does.
pub probe_error : Kernel → ℕ
probe_error k =
    first (if k.kmalloc then 0 else enomem)
      (first k.pci_enable_device_mem (first k.pci_request_selected_regions (mapping_error k)))

before-Clean :
    (k : Kernel) (e : ℕ)
    → Clean (unclaimed k)
      × Clean (failure_pci_enable e (record (unclaimed k) { memory = true })).1
      × Clean (failure_pci_regions e (record (unclaimed k) { memory = true; enabled = true })).1
unfolding failure_pci_regions failure_pci_enable
before-Clean k e = (
  record {
    memory = refl;
    enabled = refl;
    regions = refl;
    maps = nothing-Empty;
    chrdev = refl;
    cdev = refl;
    nodes = nothing-Empty;
    sound = refl;
  },
  record {
    memory = refl;
    enabled = refl;
    regions = refl;
    maps = nothing-Empty;
    chrdev = refl;
    cdev = refl;
    nodes = nothing-Empty;
    sound = refl;
  },
  record {
    memory = refl;
    enabled = refl;
    regions = refl;
    maps = nothing-Empty;
    chrdev = refl;
    cdev = refl;
    nodes = nothing-Empty;
    sound = refl;
  },
)

probe-Probed : (k : Kernel) → Sane k → Probed k (probe_error k) (pci_probe k)
unfolding pci_probe probe_error
probe-Probed k p = elim (Bool-cases k.kmalloc) [
  | inr x ↦ simp x (Probed-failed k enomem enomem _ refl refl refl (before-Clean k 0).0)
  | inl x ↦ simp x (elim (Bool-cases (k.pci_enable_device_mem == 0)) [
    | inr y ↦ rw y (
        Probed-failed k k.pci_enable_device_mem k.pci_enable_device_mem _
          (unfold failure_pci_enable in refl) refl y (before-Clean k _).1)
    | inl y ↦ rw y (elim (Bool-cases (k.pci_request_selected_regions == 0)) [
      | inr z ↦ rw z (
          Probed-failed k k.pci_request_selected_regions k.pci_request_selected_regions _
            (unfold failure_pci_regions failure_pci_enable in refl) refl z (before-Clean k _).2)
      | inl z ↦ rw z (probe_bars-Probed k p)
    ])
  ])
]

pci_remove-Clean : (k : Kernel) (d : Device) → Claimed k d → Clean (pci_remove d)
unfolding pci_remove
pci_remove-Clean k d c = record {
  memory = refl;
  enabled = refl;
  regions = refl;
  maps = release_from-Empty d.len 6 0 6 d.maps refl c.maps;
  chrdev = refl;
  cdev = refl;
  nodes = release_from-Empty d.len 6 0 6 d.nodes refl c.nodes;
  sound = ground (arith, c.memory, c.enabled, c.regions, c.chrdev, c.cdev, c.sound);
}

dev_open-node :
    (k : Kernel) (d : Device) (num : ℕ)
    → Claimed k d
    → (dev_open num d ≡ 0) ↔ (d.nodes.has num ≡ true)
unfolding dev_open
dev_open-node k d num c = ground (arith, c.nodes.inside num, c.nodes.above num)

-- What a probe leaves; `e` is the error number of the first call that fails.
pub record Outcome (k : Kernel) (e : ℕ) (r : ℕ × Device) : Type 0 where
  pub err : r.0 ≡ e
  pub failed : r.0 ≢ 0 → Clean r.1
  pub claimed : r.0 ≡ 0 → Claimed k r.1
  pub removed : r.0 ≡ 0 → Clean (pci_remove r.1)
  pub opens : r.0 ≡ 0 → (num : ℕ) → (dev_open num r.1 ≡ 0) ↔ (r.1.nodes.has num ≡ true)

-- Whatever calls of the kernel fail, where the memory BARs are not empty and an error pointer holds
-- an error: `pci_probe` returns the error number of the first call that fails, but for an `ioremap`
-- that gives a null pointer, which it does not notice. When it returns an error it holds nothing, and
-- has released nothing that it did not hold. When it returns none, it holds all, with a result of
-- `ioremap`, null or not, and a node for exactly the memory BARs; a node can be opened exactly when
-- it was created; and `pci_remove` releases all that is held, and nothing else.
pub pci_probe-Outcome : (k : Kernel) → Sane k → Outcome k (probe_error k) (pci_probe k)
pci_probe-Outcome k p =
    let r = probe-Probed k p in
    record {
      err = r.err;
      failed = r.failed;
      claimed = r.claimed;
      removed = λ q. pci_remove-Clean k (pci_probe k).1 (r.claimed q);
      opens = λ q num. dev_open-node k (pci_probe k).1 num (r.claimed q);
    }
