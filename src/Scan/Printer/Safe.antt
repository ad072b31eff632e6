-- ===== src/Scan/Printer/Safe.antt =====
-- The printers read only inside an element of a length that their entry in the tables allows.
use nl.Base.{ℕ, ◌+◌, ◌≤◌, ◌<◌, Bytes, some, length, ltb, arith}
use nl.Print.{Out, byte}
use nl.Print.Laws.{
  IsSafe, some-IsSafe, say-IsSafe, and-IsSafe, byte-IsSafe, word-IsSafe, skip-IsSafe, if-IsSafe,
}
use nl.Scan.Simple.{
  print_ds, print_country, triplets_or_none, print_powerconstraint, print_tpcreport, print_erp,
  print_ap_channel_report, print_rm_enabled_capabilities, print_hs20_ind,
}
use nl.Scan.Operation.{
  print_tim, print_ibssatim, print_bss_load, print_supp_op_classes, print_obss_scan_params,
  obss_line, print_ht_op, print_secchan_offs, print_vht_oper, print_mesh_conf,
}

-- The last read of a printer that has no loop.
byte-say :
    (bytes : Bytes) (i : ℕ) (text : ℕ → Out)
    → i < length bytes
    → IsSafe (byte bytes i (λ v. some (text v)))
byte-say bytes i text h = byte-IsSafe bytes i _ h (λ v. some-IsSafe (text v))

pub print_ds-IsSafe : (bytes : Bytes) → 1 ≤ length bytes → IsSafe (print_ds bytes)
unfolding print_ds
print_ds-IsSafe bytes h = byte-say bytes 0 _ h

pub print_powerconstraint-IsSafe :
    (bytes : Bytes) → 1 ≤ length bytes → IsSafe (print_powerconstraint bytes)
unfolding print_powerconstraint
print_powerconstraint-IsSafe bytes h = byte-say bytes 0 _ h

pub print_tpcreport-IsSafe : (bytes : Bytes) → 1 ≤ length bytes → IsSafe (print_tpcreport bytes)
unfolding print_tpcreport
print_tpcreport-IsSafe bytes h = byte-say bytes 0 _ h

pub print_erp-IsSafe : (bytes : Bytes) → 1 ≤ length bytes → IsSafe (print_erp bytes)
unfolding print_erp
print_erp-IsSafe bytes h = byte-say bytes 0 _ h

pub print_secchan_offs-IsSafe :
    (bytes : Bytes) → 1 ≤ length bytes → IsSafe (print_secchan_offs bytes)
unfolding print_secchan_offs
print_secchan_offs-IsSafe bytes h = byte-say bytes 0 _ h

pub print_ibssatim-IsSafe : (bytes : Bytes) → 2 ≤ length bytes → IsSafe (print_ibssatim bytes)
unfolding print_ibssatim
print_ibssatim-IsSafe bytes h = word-IsSafe bytes 0 _ (omega arith) (λ v. some-IsSafe _)

pub print_rm_enabled_capabilities-IsSafe :
    (bytes : Bytes) → 5 ≤ length bytes → IsSafe (print_rm_enabled_capabilities bytes)
unfolding print_rm_enabled_capabilities
print_rm_enabled_capabilities-IsSafe bytes h = byte-IsSafe bytes 0 _ (omega arith) (λ a.
    byte-IsSafe bytes 1 _ (omega arith) (λ b.
      byte-IsSafe bytes 2 _ (omega arith)
        (λ c. byte-IsSafe bytes 3 _ (omega arith) (λ d. byte-say bytes 4 _ (omega arith)))))

triplets_or_none-IsSafe : (bytes : Bytes) → IsSafe (triplets_or_none bytes)
triplets_or_none-IsSafe bytes =
    if-IsSafe (ltb (length bytes) 3) _ _ (λ e. some-IsSafe _) (λ e. some-IsSafe _)

pub print_country-IsSafe : (bytes : Bytes) → 3 ≤ length bytes → IsSafe (print_country bytes)
unfolding print_country
print_country-IsSafe bytes h = byte-IsSafe bytes 0 _ (omega arith) (λ a.
    byte-IsSafe bytes 1 _ (omega arith) (λ b. byte-IsSafe bytes 2 _ (omega arith) (λ env.
      say-IsSafe _ _
        (skip-IsSafe 3 bytes triplets_or_none h (λ rest e. triplets_or_none-IsSafe rest)))))

pub print_ap_channel_report-IsSafe :
    (bytes : Bytes) → 1 ≤ length bytes → IsSafe (print_ap_channel_report bytes)
unfolding print_ap_channel_report
print_ap_channel_report-IsSafe bytes h =
    byte-IsSafe bytes 0 _ h (λ v. skip-IsSafe 1 bytes _ h (λ rest e. some-IsSafe _))

pub print_hs20_ind-IsSafe : (bytes : Bytes) → IsSafe (print_hs20_ind bytes)
unfolding print_hs20_ind
print_hs20_ind-IsSafe bytes = say-IsSafe _ _ (
    if-IsSafe (ltb 0 (length bytes)) _ _ (λ e. byte-say bytes 0 _ (ground arith))
      (λ e. some-IsSafe _))

pub print_tim-IsSafe : (bytes : Bytes) → 4 ≤ length bytes → IsSafe (print_tim bytes)
unfolding print_tim
print_tim-IsSafe bytes h = byte-IsSafe bytes 0 _ (omega arith) (λ a.
    byte-IsSafe bytes 1 _ (omega arith)
      (λ b. byte-IsSafe bytes 2 _ (omega arith) (λ c. byte-say bytes 3 _ (omega arith))))

pub print_ht_op-IsSafe : (bytes : Bytes) → 22 ≤ length bytes → IsSafe (print_ht_op bytes)
unfolding print_ht_op
print_ht_op-IsSafe bytes h = byte-IsSafe bytes 0 _ (omega arith) (λ a.
    byte-IsSafe bytes 1 _ (omega arith) (λ b.
      byte-IsSafe bytes 2 _ (omega arith)
        (λ c. byte-IsSafe bytes 4 _ (omega arith) (λ e. byte-say bytes 5 _ (omega arith)))))

pub print_vht_oper-IsSafe : (bytes : Bytes) → 5 ≤ length bytes → IsSafe (print_vht_oper bytes)
unfolding print_vht_oper
print_vht_oper-IsSafe bytes h = byte-IsSafe bytes 0 _ (omega arith) (λ a.
    byte-IsSafe bytes 1 _ (omega arith) (λ b.
      byte-IsSafe bytes 2 _ (omega arith)
        (λ c. byte-IsSafe bytes 4 _ (omega arith) (λ e. byte-say bytes 3 _ (omega arith)))))

pub print_supp_op_classes-IsSafe :
    (bytes : Bytes) → 1 ≤ length bytes → IsSafe (print_supp_op_classes bytes)
unfolding print_supp_op_classes
print_supp_op_classes-IsSafe bytes h =
    byte-IsSafe bytes 0 _ h
      (λ p. say-IsSafe _ _ (skip-IsSafe 1 bytes _ h (λ rest e. some-IsSafe _)))

obss_line-IsSafe :
    (bytes : Bytes) (i : ℕ) (label : Bytes) (value : ℕ → Out)
    → i + 1 < length bytes
    → IsSafe (obss_line bytes i label value)
obss_line-IsSafe bytes i label value h = word-IsSafe bytes i _ h (λ v. some-IsSafe _)

pub print_obss_scan_params-IsSafe :
    (bytes : Bytes) → 14 ≤ length bytes → IsSafe (print_obss_scan_params bytes)
unfolding print_obss_scan_params
print_obss_scan_params-IsSafe bytes h =
    and-IsSafe _ _ (obss_line-IsSafe bytes 0 _ _ (omega arith)) (
      and-IsSafe _ _ (obss_line-IsSafe bytes 2 _ _ (omega arith)) (
        and-IsSafe _ _ (obss_line-IsSafe bytes 4 _ _ (omega arith)) (
          and-IsSafe _ _ (obss_line-IsSafe bytes 6 _ _ (omega arith)) (
            and-IsSafe _ _ (obss_line-IsSafe bytes 8 _ _ (omega arith)) (
              and-IsSafe _ _ (obss_line-IsSafe bytes 10 _ _ (omega arith))
                (obss_line-IsSafe bytes 12 _ _ (omega arith)))))))

pub print_bss_load-IsSafe : (bytes : Bytes) → 5 ≤ length bytes → IsSafe (print_bss_load bytes)
unfolding print_bss_load
print_bss_load-IsSafe bytes h =
    and-IsSafe _ _ (obss_line-IsSafe bytes 0 _ _ (omega arith)) (
      and-IsSafe _ _ (byte-say bytes 2 _ (omega arith))
        (obss_line-IsSafe bytes 3 _ _ (omega arith)))

pub print_mesh_conf-IsSafe : (bytes : Bytes) → 7 ≤ length bytes → IsSafe (print_mesh_conf bytes)
unfolding print_mesh_conf
print_mesh_conf-IsSafe bytes h = and-IsSafe _ _ (byte-say bytes 0 _ (omega arith)) (
    and-IsSafe _ _ (byte-say bytes 1 _ (omega arith)) (
      and-IsSafe _ _ (byte-say bytes 2 _ (omega arith)) (
        and-IsSafe _ _ (byte-say bytes 3 _ (omega arith)) (
          and-IsSafe _ _ (byte-say bytes 4 _ (omega arith))
            (byte-IsSafe bytes 5 _ (omega arith) (λ f. byte-say bytes 6 _ (omega arith)))))))
