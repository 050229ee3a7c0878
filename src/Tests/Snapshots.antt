-- ===== src/Tests/Snapshots.antt =====
-- The export of a small tree, and the files that its import writes.
use store.Prelude.{some, ◌∷◌, ◌≡◌, arith}
use store.Bytes.{Bytes}
use store.Memiavl.Node.{size}
use store.Memiavl.Export.{scan_post_order, export}
use store.Memiavl.Export.Visits.{post_order, rounds, scan_post_order_lem}
use store.Memiavl.Snapshot.{write_snapshot, put_uint32}
use store.Memiavl.Snapshot.Scan.{snapshot_export}
use store.Memiavl.Snapshot.Scan.Slices.{kv_bytes}
use store.Memiavl.Snapshot.Layout.{kvs_of}
use store.Memiavl.Snapshot.RoundTrip.{snapshot_export-write_snapshot}
use store.Memiavl.Snapshot.Import.{HasFiles, do_import-export}
use store.Tests.Data.{small_tree, small_tree-IsValid}
use store.Tests.Caches.{cached_tree}

abbrev eight : Bytes → Bytes
eight bz = 8 ∷ bz

scan_post_order_example : scan_post_order 8 (some small_tree) ≡ some (post_order small_tree)
scan_post_order_example = scan_post_order_lem small_tree 8 (unfold rounds in omega arith)

do_import_example : HasFiles eight 4 (write_snapshot eight cached_tree) (export 8 cached_tree)
do_import_example =
    do_import-export eight cached_tree 8
      (
        small_tree-IsValid.avl,
        (tt, tt, (tt, tt, tt)),
        (omega arith, omega arith, (omega arith, omega arith, omega arith)),
        unfold size in omega arith,
      )
      (omega arith) (unfold rounds in omega arith)

snapshot_export_example : snapshot_export (write_snapshot eight cached_tree) ≡ export 8 cached_tree
snapshot_export_example =
    snapshot_export-write_snapshot eight cached_tree 8
      (
        small_tree-IsValid.avl,
        small_tree-IsValid.keyed,
        ((omega arith, omega arith), ((omega arith, omega arith), (omega arith, omega arith))),
        unfold size in omega arith,
        unfold kvs_of kv_bytes put_uint32 in omega arith,
      )
      (unfold rounds in omega arith)
