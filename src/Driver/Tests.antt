-- ===== src/Driver/Tests.antt =====
-- Tests and instances for the Linux driver.
use sharedgl.Prelude.{◌≡◌, true, refl, ◌==◌, if◌then◌else◌, arith}
use sharedgl.Driver.{
  Kernel, mapped, null, map_bars, create_nodes, pci_probe, probe_bars, probe_chrdev, probe_nodes,
  failure_device_create, failure_cdev_add, failure_alloc_chrdev_region, failure_ioremap,
  failure_pci_regions, failure_pci_enable, release_below, release_from,
}
use sharedgl.Driver.Bars.{Sane}
use sharedgl.Driver.Probe.{Outcome, probe_error, pci_probe-Outcome}

-- A device with memory behind the BARs 0 and 2, of which the second cannot be mapped, which the driver
-- does not notice, and gets no node.
abbrev board : Kernel
board = record {
  kmalloc = true;
  pci_enable_device_mem = 0;
  mem_bars = λ i. if i == 0 then true else i == 2;
  pci_request_selected_regions = 0;
  ioremap = λ i. if i == 0 then mapped else null;
  pci_resource_len = λ i. if i == 0 then 256 else if i == 2 then 4096 else 0;
  alloc_chrdev_region = 0;
  cdev_add = 0;
  device_create = λ i. if i == 2 then 17 else 0;
  unset_len = λ i. 99;
}

board-Sane : Sane board
board-Sane = record { sized = λ i h. ground (arith, h); errors = λ i e h. ground (arith, h) }

fails : (pci_probe board).0 ≡ 17
unfolding pci_probe probe_bars probe_chrdev probe_nodes map_bars create_nodes failure_device_create
    failure_cdev_add failure_alloc_chrdev_region failure_ioremap failure_pci_regions
    failure_pci_enable release_below release_from
fails = refl

pci_probe-Outcome_example : Outcome board (probe_error board) (pci_probe board)
pci_probe-Outcome_example = pci_probe-Outcome board board-Sane
