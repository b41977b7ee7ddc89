-- ===== src/Queue/Keeps.antt =====
-- What deleting a task and processing a message leave alone, running a task leaves alone.
use ua_rate_throttling.Common.{ℕ, ◌≡◌, sym, ap, ◌∙◌, Option, none, some, Bytes, >>=-eq-some}
use ua_rate_throttling.Queue.{run_request, read_request, execute_request}
use ua_rate_throttling.Queue.Libraries.{Host, ByteString}

module _ (host : Host) (measure : host.World → ℕ)
    (deletes : (p : Bytes) (w : host.World) → measure (host.zoo_delete p w) ≡ measure w)
    (processes : (id : ℕ) (dst : ByteString) (w w' : host.World)
      → host.process_chunks (host.secure_channel id w) dst w ≡ some w'
      → measure w' ≡ measure w) where
  run_request-keeps :
      (p : Bytes) (w w' : host.World) (r : Option (ℕ × ByteString))
      → run_request host p w r ≡ some w'
      → measure w' ≡ measure w
  unfolding run_request
  run_request-keeps p w w' none ran = ap measure (cc ran)
  run_request-keeps p w w' (some (id, dst)) ran =
      let (w1, done, deleted) =
        >>=-eq-some (host.process_chunks (host.secure_channel id w) dst w)
          (λ processed. some (host.zoo_delete p processed)) ran in
      ap measure (sym (cc deleted)) ∙ deletes p w1 ∙ processes id dst w w1 done

  pub execute_request-keeps :
      (p : Bytes) (w w' : host.World) → execute_request host p w ≡ some w' → measure w' ≡ measure w
  unfolding execute_request
  execute_request-keeps p w w' ran =
      run_request-keeps p w w' (read_request host (host.zoo_get p w)) ran
