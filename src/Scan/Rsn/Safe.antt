-- ===== src/Scan/Rsn/Safe.antt =====
-- The element on security is read only inside its bytes.
use nl.Base.{
  ℕ, zero, suc, ◌+◌, ◌*◌, ◌≤◌, ◌<◌, Bool, true, false, Bytes, List, [], ◌∷◌, length, ltb, arith,
}
use nl.Print.{Printed, ◌&◌, skip}
use nl.Print.Laws.{
  IsSafe, some-IsSafe, say-IsSafe, and-IsSafe, byte-IsSafe, word-IsSafe, skip-IsSafe, if-IsSafe,
}
use nl.Scan.Suites.{SuiteTable, cipher_tables, auth_tables, print_suite}
use nl.Scan.Rsn.{
  tab_on_first, bogus_tail, newline, group_mgmt, pmkids, rsn_capa, suite_loop, suite_list,
  auth_suites, pairwise_ciphers, group_cipher, print_rsn_element,
}

pub print_suite-IsSafe :
    (tables : List SuiteTable) (bytes : Bytes) (i : ℕ)
    → i + 3 < length bytes
    → IsSafe (print_suite tables bytes i)
print_suite-IsSafe tables bytes i h = byte-IsSafe bytes i _ (omega arith) (λ a.
    byte-IsSafe bytes (i + 1) _ (omega arith) (λ b.
      byte-IsSafe bytes (i + 2) _ (omega arith)
        (λ c. byte-IsSafe bytes (i + 3) _ (omega arith) (λ d. some-IsSafe _))))

bogus_tail-IsSafe : (bytes : Bytes) → IsSafe (bogus_tail bytes)
bogus_tail-IsSafe [] = some-IsSafe _
bogus_tail-IsSafe (b ∷ bs) = some-IsSafe _

tab-IsSafe : (first : Bool) (p : Printed) → IsSafe p → IsSafe (tab_on_first first & p)
tab-IsSafe true p h = and-IsSafe (tab_on_first true) p (some-IsSafe _) h
tab-IsSafe false p h = and-IsSafe (tab_on_first false) p (some-IsSafe _) h

-- A suite, the end of its line, and what follows the suite.
after_suite :
    (tables : List SuiteTable) (bytes : Bytes) (next : Bytes → Printed)
    → 4 ≤ length bytes
    → ((rest : Bytes) → IsSafe (next rest))
    → IsSafe (print_suite tables bytes 0 & newline & skip 4 bytes next)
after_suite tables bytes next h safe =
    and-IsSafe (print_suite tables bytes 0) _ (print_suite-IsSafe tables bytes 0 (omega arith))
      (and-IsSafe newline _ (some-IsSafe _) (skip-IsSafe 4 bytes next h (λ rest e. safe rest)))

group_mgmt-IsSafe : (bytes : Bytes) → IsSafe (group_mgmt bytes)
unfolding group_mgmt
group_mgmt-IsSafe bytes =
    if-IsSafe (ltb (length bytes) 4) _ _ (λ short. bogus_tail-IsSafe bytes)
      (λ long. tab-IsSafe false _ (
        say-IsSafe _ _
          (after_suite cipher_tables bytes bogus_tail (ground arith) bogus_tail-IsSafe)))

pmkids-IsSafe : (bytes : Bytes) → IsSafe (pmkids bytes)
unfolding pmkids
pmkids-IsSafe bytes =
    if-IsSafe (ltb (length bytes) 2) _ _ (λ short. group_mgmt-IsSafe bytes)
      (λ long. word-IsSafe bytes 0 _ (ground arith) (λ count.
        if-IsSafe (ltb (length bytes) (2 + 16 * count)) _ _ (λ over. bogus_tail-IsSafe bytes)
          (λ fits. tab-IsSafe false _ (
            say-IsSafe _ _ (
              skip-IsSafe (2 + 16 * count) bytes group_mgmt (ground arith)
                (λ rest e. group_mgmt-IsSafe rest))))))

rsn_capa-IsSafe : (bytes : Bytes) → IsSafe (rsn_capa bytes)
unfolding rsn_capa
rsn_capa-IsSafe bytes =
    if-IsSafe (ltb (length bytes) 2) _ _ (λ short. pmkids-IsSafe bytes)
      (λ long. word-IsSafe bytes 0 _ (ground arith) (λ capa. tab-IsSafe false _ (
        say-IsSafe _ _ (skip-IsSafe 2 bytes pmkids (ground arith) (λ rest e. pmkids-IsSafe rest)))))

suite_loop-IsSafe :
    (tables : List SuiteTable) (bytes : Bytes) (rounds i : ℕ)
    → 2 + (rounds + i) * 4 ≤ length bytes
    → IsSafe (suite_loop tables bytes rounds i)
unfolding suite_loop
suite_loop-IsSafe tables bytes zero i h = some-IsSafe _
suite_loop-IsSafe tables bytes (suc rounds) i h = say-IsSafe _ _ (
    and-IsSafe (print_suite tables bytes (2 + i * 4)) _
      (print_suite-IsSafe tables bytes (2 + i * 4) (omega arith))
      (suite_loop-IsSafe tables bytes rounds (i + 1) (omega arith)))

suite_list-IsSafe :
    (tables : List SuiteTable) (label default bytes : Bytes) (next : Bytes → Printed)
    → ((rest : Bytes) → IsSafe (next rest))
    → IsSafe (suite_list tables label default bytes next)
unfolding suite_list
suite_list-IsSafe tables label default bytes next safe =
    if-IsSafe (ltb (length bytes) 2) _ _ (λ short. tab-IsSafe false _ (some-IsSafe _))
      (λ long. word-IsSafe bytes 0 _ (ground arith) (λ count.
        if-IsSafe (ltb (length bytes) (2 + count * 4)) _ _ (λ over. bogus_tail-IsSafe bytes)
          (λ fits. tab-IsSafe false _ (
            say-IsSafe _ _ (
              and-IsSafe (suite_loop tables bytes count 0) _
                (suite_loop-IsSafe tables bytes count 0 (ground arith))
                (and-IsSafe newline _ (some-IsSafe _) (
                  skip-IsSafe (2 + count * 4) bytes next (ground arith) (λ rest e. safe rest))))))))

auth_suites-IsSafe : (defauth bytes : Bytes) → IsSafe (auth_suites defauth bytes)
unfolding auth_suites
auth_suites-IsSafe defauth bytes =
    suite_list-IsSafe auth_tables _ defauth bytes rsn_capa rsn_capa-IsSafe

pairwise_ciphers-IsSafe :
    (defcipher defauth bytes : Bytes) → IsSafe (pairwise_ciphers defcipher defauth bytes)
unfolding pairwise_ciphers
pairwise_ciphers-IsSafe defcipher defauth bytes =
    suite_list-IsSafe cipher_tables _ defcipher bytes (auth_suites defauth)
      (auth_suites-IsSafe defauth)

group_cipher-IsSafe :
    (first : Bool) (defcipher defauth bytes : Bytes)
    → IsSafe (group_cipher first defcipher defauth bytes)
unfolding group_cipher
group_cipher-IsSafe first defcipher defauth bytes =
    if-IsSafe (ltb (length bytes) 4) _ _
      (λ short. tab-IsSafe first _ (say-IsSafe _ _ (some-IsSafe _)))
      (λ long. tab-IsSafe first _ (
        say-IsSafe _ _ (
          after_suite cipher_tables bytes (pairwise_ciphers defcipher defauth) (ground arith)
            (pairwise_ciphers-IsSafe defcipher defauth))))

-- The bytes that an element needs at least: its version.
abbrev pub min_length : (is_osen : Bool) → ℕ
min_length true = 0
min_length false = 2

-- Whatever an element of at least two bytes holds, and whatever an OSEN element holds, its counts of
-- suites and of PMKIDs included, no byte behind its end is read and its length never falls below 0.
pub print_rsn_element-IsSafe :
    (defcipher defauth bytes : Bytes) (is_osen : Bool)
    → min_length is_osen ≤ length bytes
    → IsSafe (print_rsn_element defcipher defauth bytes is_osen)
unfolding print_rsn_element
print_rsn_element-IsSafe defcipher defauth bytes true h =
    group_cipher-IsSafe true defcipher defauth bytes
print_rsn_element-IsSafe defcipher defauth bytes false h =
    word-IsSafe bytes 0 _ (omega arith) (λ version. say-IsSafe _ _ (
      skip-IsSafe 2 bytes (group_cipher false defcipher defauth) h
        (λ rest e. group_cipher-IsSafe false defcipher defauth rest)))
