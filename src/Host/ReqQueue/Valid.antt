-- ===== src/Host/ReqQueue/Valid.antt =====
-- reqQueue.c, issd_Compute_client.c: the invariant of the ring and its semaphores.
use issd.Base.{
  ℕ, suc, ◌+◌, ◌%◌, ◌<◌, ◌≡◌, refl, sym, ap, ap₂, ◌∙◌, true, [], ◌∷◌, ◌++◌, append_assoc, ◌==◌,
  update, arith,
}
use issd.Host.ReqQueue.{RQueue, create_rqueue, Turn, nobody, entered, finished}
use issd.Host.ReqQueue.Window.{wrap, mod-wrap, window, window-update, window-append}

-- Whether somebody has entered, and whether he has used the buffer.
abbrev pub before : Turn → ℕ
before nobody = 0
before entered = 1
before finished = 0

abbrev pub behind : Turn → ℕ
behind nobody = 0
behind entered = 0
behind finished = 1

module _ {P : Type 0} where
  -- `len` packets lie in the buffer. Every slot is counted by a semaphore or by somebody who has
  -- passed one.
  pub record IsValid (n len : ℕ) (q : RQueue P) : Type 0 where
    pub items : q.shm_num_items ≡ n
    pub inside : q.rd_idx < n
    pub at : q.wr_idx ≡ wrap n (q.rd_idx + len)
    pub order : q.sent ≡ q.got ++ window q.shared_buffer n q.rd_idx len
    pub slots :
        q.empty + q.senders + before q.mutex_producer + len + behind q.mutex_consumer + q.leavers
        ≡ n
    pub packets :
        q.full + q.getters + before q.mutex_consumer + behind q.mutex_producer + q.posters ≡ len

  pub create_rqueue-IsValid :
      (n : ℕ) (buffer : ℕ → P) → 0 < n → IsValid n 0 (create_rqueue n buffer)
  create_rqueue-IsValid n buffer h = record {
    items = refl;
    inside = h;
    at = ground arith;
    order = refl;
    slots = omega arith;
    packets = omega arith;
  }

  -- Putting a packet, in the terms of the window.
  put-order :
      (n len : ℕ) (q : RQueue P) (p : P)
      → IsValid n len q
      → len < n
      → q.sent ++ (p ∷ [])
        ≡ q.got ++ window (update q.shared_buffer q.wr_idx p) n q.rd_idx (suc len)
  put-order n len q p v h =
      let b' = update q.shared_buffer q.wr_idx p in
      let here : b' (wrap n (q.rd_idx + len)) ≡ p =
        let same : (q.wr_idx == wrap n (q.rd_idx + len)) ≡ true = ground (arith, v.at) in
        rw same refl in
      let w : window b' n q.rd_idx (suc len) ≡ window q.shared_buffer n q.rd_idx len ++ (p ∷ []) =
        window-append b' n q.rd_idx len v.inside h
        ∙ ap₂ (λ xs y. xs ++ (y ∷ []))
            (window-update q.shared_buffer n q.rd_idx len len q.wr_idx p v.inside (omega arith) h
              v.at)
            here in
      ap (λ xs. xs ++ (p ∷ [])) v.order
      ∙ append_assoc q.got (window q.shared_buffer n q.rd_idx len) (p ∷ [])
      ∙ ap (λ xs. q.got ++ xs) (sym w)

  pub put-IsValid :
      (n len : ℕ) (q : RQueue P) (p : P)
      → IsValid n len q
      → q.mutex_producer ≡ entered
      → IsValid n (suc len) (record q {
        shared_buffer = update q.shared_buffer q.wr_idx p;
        wr_idx = (q.wr_idx + 1) % q.shm_num_items;
        mutex_producer = finished;
        sent = q.sent ++ (p ∷ []);
      })
  put-IsValid n len q p v e =
      let slots : q.empty + q.senders + 1 + len + behind q.mutex_consumer + q.leavers ≡ n =
        rw e at v.slots in
      let packets : q.full + q.getters + before q.mutex_consumer + 0 + q.posters ≡ len =
        rw e at v.packets in
      let room : len < n = omega arith in
      let inside = v.inside in
      let at = v.at in
      record {
        items = v.items;
        inside = v.inside;
        at =
            ap (λ m. (q.wr_idx + 1) % m) v.items
            ∙ mod-wrap n (q.wr_idx + 1) (ground arith)
            ∙ ground arith;
        order = put-order n len q p v room;
        slots = omega arith;
        packets = omega arith;
      }

  pub take-IsValid :
      (n len : ℕ) (q : RQueue P)
      → IsValid n (suc len) q
      → q.mutex_consumer ≡ entered
      → IsValid n len (record q {
        rd_idx = (q.rd_idx + 1) % q.shm_num_items;
        mutex_consumer = finished;
        got = q.got ++ (q.shared_buffer q.rd_idx ∷ []);
      })
  take-IsValid n len q v e =
      let slots : q.empty + q.senders + before q.mutex_producer + suc len + 0 + q.leavers ≡ n =
        rw e at v.slots in
      let packets : q.full + q.getters + 1 + behind q.mutex_producer + q.posters ≡ suc len =
        rw e at v.packets in
      let inside = v.inside in
      let at = v.at in
      let next : (q.rd_idx + 1) % q.shm_num_items ≡ wrap n (q.rd_idx + 1) =
        ap (λ m. (q.rd_idx + 1) % m) v.items ∙ mod-wrap n (q.rd_idx + 1) (omega arith) in
      record {
        items = v.items;
        inside = ground arith;
        at = ground arith;
        order =
            v.order
            ∙ sym (
                append_assoc q.got (q.shared_buffer q.rd_idx ∷ [])
                  (window q.shared_buffer n (wrap n (q.rd_idx + 1)) len))
            ∙ ap (λ i. (q.got ++ (q.shared_buffer q.rd_idx ∷ [])) ++ window q.shared_buffer n i len)
                (sym next);
        slots = omega arith;
        packets = omega arith;
      }

  -- A step that only moves somebody from one count to the next.
  pub moves-IsValid :
      (n len : ℕ) (q : RQueue P) (full empty senders posters getters leavers : ℕ) (mp mc : Turn)
      → IsValid n len q
      → empty + senders + before mp + behind mc + leavers
        ≡ q.empty + q.senders + before q.mutex_producer + behind q.mutex_consumer + q.leavers
      → full + getters + before mc + behind mp + posters
        ≡ q.full + q.getters + before q.mutex_consumer + behind q.mutex_producer + q.posters
      → IsValid n len (record q {
        full = full;
        empty = empty;
        senders = senders;
        posters = posters;
        getters = getters;
        leavers = leavers;
        mutex_producer = mp;
        mutex_consumer = mc;
      })
  moves-IsValid n len q full empty senders posters getters leavers mp mc v a b =
      let slots = v.slots in
      let packets = v.packets in
      record {
        items = v.items;
        inside = v.inside;
        at = v.at;
        order = v.order;
        slots = omega arith;
        packets = omega arith;
      }
