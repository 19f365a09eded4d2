-- ===== src/Audit.antt =====
-- The tamper-evident audit log, apps/preview/src/lib/vor/audit.ts. `seq` and `ts` are integers.

pub mod Chain
use vor.Common.{
  ◌||◌, not, Option, none, some, List, [], ◌∷◌, if◌then◌else◌, length, last?, Text, codes, text_eq,
  ℤ, pos, negsuc, int, utf8,
}
use vor.Crypto.{Noble, sha256_hex}
use vor.Canonical.{JsonValue, number, string, object, end, member, canonical_json}

pub record AuditEntry : Type 0 where
  pub seq : ℤ
  pub ts : ℤ
  pub action : Text
  pub detail : Text
  pub prev_hash : Text
  pub hash : Text

abbrev pub genesis : Text
genesis = codes "GENESIS"

-- The document that is hashed: the entry without its hash.
abbrev pub entry_doc : AuditEntry → JsonValue
entry_doc e = object (
    member (codes "seq") (number (int e.seq)) (
      member (codes "ts") (number (int e.ts)) (
        member (codes "action") (string e.action) (
          member (codes "detail") (string e.detail)
            (member (codes "prev_hash") (string e.prev_hash) end)))))

abbrev pub or_empty : Option Text → Text
or_empty none = []
or_empty (some t) = t

module _ (n : Noble) where
  -- `canonicalJson` throws at numbers that are not finite only, and there are none here.
  unfoldable pub hash_entry : AuditEntry → Text
  hash_entry e = sha256_hex n (utf8 (or_empty (canonical_json (entry_doc e))))

  -- The hash of the last entry, or GENESIS.
  unfoldable pub audit_root : List AuditEntry → Text
  audit_root entries = elim (last? entries) [ none ↦ genesis | some e ↦ e.hash ]

  unfoldable pub append_audit : List AuditEntry → ℤ → Text → Text → AuditEntry
  unfolding audit_root
  append_audit entries ts action detail =
      let entry : AuditEntry = record {
        seq = pos (length entries);
        ts = ts;
        action = action;
        detail = detail;
        prev_hash = audit_root entries;
        hash = [];
      } in
      record entry { hash = hash_entry entry }

  -- The loop of `verifyAuditChain`, with the hash that the next entry must name.
  unfoldable pub verify_from : Text → List AuditEntry → ℤ
  verify_from prev [] = negsuc 0
  verify_from prev (e ∷ es) =
      let rest = verify_from e.hash es in
      if not (text_eq e.prev_hash prev) || not (text_eq e.hash (hash_entry e)) then e.seq else rest

  unfoldable pub verify_audit_chain : List AuditEntry → ℤ
  unfolding verify_from
  verify_audit_chain entries = verify_from genesis entries
