-- ===== src/Lib.antt =====
-- The Flipper OS installer: its UFS provisioning, its discovery of storage and of the board, the shared
-- state with its threads and front ends, and the installation itself.
--
-- The installer (src/core) brings the board's UFS storage to a fixed layout of logical units before it
-- installs onto it. It reads the device's descriptors (src/core/ufs.rs), computes from a scheme file
-- the configuration descriptor that the device should have (`plan` in src/core/provision.rs), compares
-- that with the one the device has (`compare`), and writes it if they differ in what matters. A
-- controller (src/core/controller.rs) keeps one state (src/core/model.rs) behind a lock; two front ends
-- and the worker threads read and change it. An installation (src/core/install.rs) takes the selection
-- from the state, guards and stages it (src/core/stage.rs), and writes the target.
--
-- Which file models which part:
--   Ufs/Codes, Ufs/Device, Ufs/Geometry, Ufs/Config: src/core/ufs.rs, its code tables, descriptor
--     parsers and `ConfigDescriptor`, over byte lists (Ufs/Bytes). `parse_device` is
--     `DeviceDescriptor::parse`, `wrap_config` is `ConfigDescriptor::new`, `empty_config` is
--     `ConfigDescriptor::empty`; the other functions keep their names.
--   Provision/Scheme, Provision/WriteBooster, Provision/Plan, Provision/Compare:
--     src/core/provision.rs. The body of `plan` is split at its loops: `size_units` sizes the units,
--     `check_ceilings` checks the memory types, `start_descriptor` writes the header, `place_units`
--     writes the blocks.
--   Ufs/World: what the code does to the system as a history of events (queries, deletions, scans,
--     sleeps), what the system answers, and the calls `Io` that lengthen the history. Ufs/Query: `Bsg`
--     in src/core/ufs.rs, down to the bytes of the request. Ufs/Rescan: `rescan_logical_units` and
--     `apply_configuration` there.
--   Provision/Apply: `Target`, `probe` and `apply` in src/core/provision.rs. The body of `apply` is
--     split into `act`, which decides, `reprovision`, which works, and `write_configuration`.
--   Storage: src/core/storage.rs, `enumerate` over the entries of /sys/block, `classify`, `mmc_kind`,
--     `is_partition_of`, `device_in_use` and `find_ufs_boot_lu`.
--   Board: src/core/board.rs, `detect` over the device tree's files.
--   Model: src/core/model.rs. Controller: src/core/controller.rs, one function for each use of the lock
--     (Controller/Sections, Controller/Choices), the threads between two uses of it (`Job`, `Turn`), and
--     all threads with the calls of both front ends as a step relation (Controller/System).
--   Stage, Media, Fetch, Layout: src/core/stage.rs, src/core/removable.rs, src/core/fetch.rs and
--     src/core/layout.rs. `staging_plan` is `plan` in stage.rs, `run_staging` is `run` there.
--   Machine: the effects of an installation, and what the system answers. Install: src/core/install.rs.
--     The body of `run` is split into `selected`, `prepare` with `check`, and `proceed`, which unpacks,
--     stages and then calls `install`; the other functions keep their names.
--   Fetch/Resume: the resuming reader of src/core/fetch.rs, as a relation, over connections that are a
--     parameter.
--   Menu: src/core/menu.rs. Menu/Nav is the position of a front end, Menu/Levels and Menu/Choices the
--     levels (`build_level` is `build`, `root_level` is `root`, and so on), Menu/Activate what a row does.
--   Catalog: src/core/catalog.rs, the builds that are listed (Catalog/Names has their labels and the names
--     of packs) and what is read of their manifests (Catalog/Contents, Catalog/Packs). `listed_or_generic`
--     is `board_dir` there.
--   Bundle: src/core/bundle.rs. Bundle/Listing lists the bucket page by page, with the encoding of Bundle/Query,
--     Bundle/Resolve is `resolve` (`resolve_bundle`), `load` (`load_bundle`) and `unpack_dest`, Bundle/Local
--     the bundles on media.
--   Archive: src/core/archive.rs, over the members that the reader of archives yields; `unpack_into` is
--     `unpack`, `unpack_reference` the `unpack` of core/bundle.rs.
--   Base: numbers, lists, texts and results that all of them share.
--   Samples, Simulator, Tests: the dumps of a real part, a simulated system with it, the definitions
--     at them, and each property at one input.
--
-- Conventions: an error is a constructor with the values that its message shows; `panicked` is a
-- panic, which ends the program. Machine integers are natural numbers with their wrap written out, as
-- a release build has it. Texts are lists of code points.
--
-- The TOML reader, the file system, the kernel with its device, and the clock are parameters; each of
-- their answers may depend on everything done before. The two waits of `apply_configuration` are loops
-- on fuel 201: a round sleeps 50 ms of 10 s, or 100 ms of 20 s, so 200 sleeps pass the deadline.
-- Running out of fuel would count as a panic there. `wait_for_device` polls every 100 ms of 10 s on fuel
-- 101, and `wait_for_exclusive_access` every 200 ms of 10 s on fuel 51, as many rounds as reach the
-- deadline; running out of it is the deadline.
--
-- Not modelled: log and summary lines, the progress bar, sizes printed with floats, the record that the
-- metadata tool is given (an argument of `run`), the fingerprint and the details texts of the menu, the
-- removal of scratch files, and the front ends.
pub mod Base
pub mod Ufs
pub mod Provision
pub mod Board
pub mod Storage
pub mod Model
pub mod Controller
pub mod Media
pub mod Fetch
pub mod Layout
pub mod Machine
pub mod Stage
pub mod Install
pub mod Menu
pub mod Catalog
pub mod Bundle
pub mod Archive
pub mod Samples
pub mod Simulator
pub mod Tests
pub mod Added
