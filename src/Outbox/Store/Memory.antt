-- ===== src/Outbox/Store/Memory.antt =====
-- The outbox's table held as a list: it shows that what `OutboxTable` promises can be met, and runs
-- in tests.
use multi_tenant_saa_s_platf.Base.{
  ℕ, ◌≤◌, ◌≡◌, true, List, [], ◌∷◌, ◌++◌, Result, ok, arith, all, keep, take, length, length-take,
}
use multi_tenant_saa_s_platf.Kernel.Repository.{matches}
use multi_tenant_saa_s_platf.Kernel.Repository.Memory.{all-keep, all-take, upsert}
use multi_tenant_saa_s_platf.Outbox.Store.{OutboxTable, OutboxEntryOrm, FindOptions, outbox_column}

abbrev pub found : FindOptions → List OutboxEntryOrm → List OutboxEntryOrm
found options rows = take options.take (keep (matches outbox_column options.conditions) rows)

length_take_le : {A : Type 0} (n : ℕ) (xs : List A) → length (take n xs) ≤ n
length_take_le n xs = ground (arith, length-take n xs)

pub found_fits :
    (options : FindOptions) (rows es : List OutboxEntryOrm)
    → ◌≡◌ {A = Result (List OutboxEntryOrm)} (ok (found options rows)) (ok es)
    → all (matches outbox_column options.conditions) es ≡ true
found_fits options rows es h =
    let same : found options rows ≡ es = cc in
    rw (← same)
      (all-take (matches outbox_column options.conditions) options.take _ (all-keep _ rows))

pub found_take :
    (options : FindOptions) (rows es : List OutboxEntryOrm)
    → ◌≡◌ {A = Result (List OutboxEntryOrm)} (ok (found options rows)) (ok es)
    → length es ≤ options.take
found_take options rows es h =
    let same : found options rows ≡ es = cc in rw (← same) (length_take_le options.take _)

unfoldable pub outbox_memory : OutboxTable
outbox_memory = record {
  Table = List OutboxEntryOrm;
  insert = λ row t. (ok tt, t ++ row ∷ []);
  find = λ options t. ok (found options t);
  save = λ row t. (ok row, upsert outbox_column row t);
  find_fits = λ options t es h. found_fits options t es h;
  find_take = λ options t es h. found_take options t es h;
  save_rejected = λ row t t' x h. cc;
  insert_rejected = λ row t t' x h. cc;
}

unfoldable pub outbox_of : List OutboxEntryOrm → outbox_memory.Table
unfolding outbox_memory
outbox_of rows = rows
