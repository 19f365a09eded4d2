-- ===== src/Audit/Chain.antt =====
-- What the chain check of the audit log detects, and what it does not.
use vor.Common.{
  ◌≡◌, refl, sym, ◌∙◌, ◌≢◌, ◌↔◌, some, List, [], ◌∷◌, ◌++◌, arith, length, last?, last?-concat, All,
  Text, text_eq_iff, ℤ, pos, negsuc,
}
use vor.Crypto.{Noble}
use vor.Audit.{
  AuditEntry, genesis, hash_entry, audit_root, append_audit, verify_from, verify_audit_chain,
}

module _ (n : Noble) where
  -- Each entry names the hash of the one before it and carries its own.
  abbrev pub IsChain : Text → List AuditEntry → Type 0
  IsChain prev [] = Unit
  IsChain prev (e ∷ es) = (e.prev_hash ≡ prev) × (e.hash ≡ hash_entry n e) × IsChain e.hash es

  abbrev pub end_hash : Text → List AuditEntry → Text
  end_hash prev [] = prev
  end_hash prev (e ∷ es) = end_hash e.hash es

  verify_of_IsChain :
      (prev : Text) (es : List AuditEntry) → IsChain prev es → verify_from n prev es ≡ negsuc 0
  unfolding verify_from
  verify_of_IsChain prev [] h = refl
  verify_of_IsChain prev (e ∷ es) (p, q, h) =
      rw ((text_eq_iff e.prev_hash prev).1 p, (text_eq_iff e.hash (hash_entry n e)).1 q)
        (verify_of_IsChain e.hash es h)

  verify_from-IsChain :
      (prev : Text) (es : List AuditEntry)
      → All (λ e. e.seq ≢ negsuc 0) es
      → verify_from n prev es ≡ negsuc 0
      → IsChain prev es
  unfolding verify_from
  verify_from-IsChain prev [] k h = tt
  verify_from-IsChain prev (e ∷ es) (numbered, k) h = ground (
    arith,
    text_eq_iff e.prev_hash prev,
    text_eq_iff e.hash (hash_entry n e),
    verify_from-IsChain e.hash es k,
  )

  -- Where no entry is numbered -1, the check returns -1 exactly for a log in which each entry names
  -- the hash of the one before it, the first GENESIS, and carries its own hash.
  pub verify_audit_chain_iff :
      (es : List AuditEntry)
      → All (λ e. e.seq ≢ negsuc 0) es
      → (verify_audit_chain n es ≡ negsuc 0) ↔ IsChain genesis es
  unfolding verify_audit_chain
  verify_audit_chain_iff es k = (verify_from-IsChain genesis es k, verify_of_IsChain genesis es)

  IsChain-concat :
      (prev : Text) (es : List AuditEntry) (e : AuditEntry)
      → IsChain prev es
      → e.prev_hash ≡ end_hash prev es
      → e.hash ≡ hash_entry n e
      → IsChain prev (es ++ e ∷ [])
  IsChain-concat prev [] e h p q = (p, q, tt)
  IsChain-concat prev (d ∷ es) e (p', q', h) p q = (p', q', IsChain-concat d.hash es e h p q)

  end_hash-last? :
      (prev : Text) (d : AuditEntry) (es : List AuditEntry)
      → (e : AuditEntry) × (last? (d ∷ es) ≡ some e) × (end_hash prev (d ∷ es) ≡ e.hash)
  end_hash-last? prev d [] = (d, refl, refl)
  end_hash-last? prev d (f ∷ es) = end_hash-last? d.hash f es

  end_hash-audit_root : (es : List AuditEntry) → end_hash genesis es ≡ audit_root n es
  unfolding audit_root
  end_hash-audit_root [] = refl
  end_hash-audit_root (d ∷ es) =
      let (e, last, end) = end_hash-last? genesis d es in rw (last, audit_root) end

  audit_root-concat : (es : List AuditEntry) (e : AuditEntry) → audit_root n (es ++ e ∷ []) ≡ e.hash
  unfolding audit_root
  audit_root-concat es e = rw (last?-concat es e, audit_root)

  -- Appending to an intact log keeps it intact: the new entry is numbered by the length of the log,
  -- names its root, and becomes its root.
  pub append_audit-intact :
      (es : List AuditEntry) (ts : ℤ) (action detail : Text)
      → IsChain genesis es
      → IsChain genesis (es ++ append_audit n es ts action detail ∷ [])
        × (audit_root n (es ++ append_audit n es ts action detail ∷ [])
            ≡ (append_audit n es ts action detail).hash)
        × ((append_audit n es ts action detail).seq ≡ pos (length es))
  unfolding append_audit
  append_audit-intact es ts action detail h = (
    IsChain-concat genesis es _ h (sym (end_hash-audit_root es)) (unfold hash_entry in refl),
    audit_root-concat es _,
    refl,
  )

  -- The check walks through an intact start.
  verify-append :
      (prev : Text) (es later : List AuditEntry)
      → IsChain prev es
      → verify_from n prev (es ++ later) ≡ verify_from n (end_hash prev es) later
  unfolding verify_from
  verify-append prev [] later h = refl
  verify-append prev (e ∷ es) later (p, q, h) =
      rw ((text_eq_iff e.prev_hash prev).1 p, (text_eq_iff e.hash (hash_entry n e)).1 q)
        (verify-append e.hash es later h)

  verify_forged :
      (prev : Text) (later : List AuditEntry) (e : AuditEntry)
      → e.hash ≢ hash_entry n e
      → verify_from n prev (e ∷ later) ≡ e.seq
  unfolding verify_from
  verify_forged prev later e forged = ground (arith, text_eq_iff e.hash (hash_entry n e))

  -- Where an intact start is followed by an entry whose hash is not its own, the check returns the
  -- number that this entry carries, whatever follows it (so -1, "intact", if it carries -1).
  pub verify_audit_chain-forged :
      (es later : List AuditEntry) (e : AuditEntry)
      → IsChain genesis es
      → e.hash ≢ hash_entry n e
      → verify_audit_chain n (es ++ e ∷ later) ≡ e.seq
  unfolding verify_audit_chain
  verify_audit_chain-forged es later e h forged =
      verify-append genesis es (e ∷ later) h ∙ verify_forged (end_hash genesis es) later e forged
