-- ===== src/Stream/Front.antt =====
-- The streaming flasher of src/src/ffu.c on a header at the front of a larger buffer.
use ufp_ffu_device_efi.Prelude.{
  ℕ, zero, suc, ◌+◌, ◌≡◌, refl, ap, ◌∙◌, List, [], ◌∷◌, Bool, Option, some, none, take, drop,
  get_elem?,
}
use ufp_ffu_device_efi.Efi.{Outcome, ok, err, stuck, ◌>>=◌, ◌&>◌, &>-cong}
use ufp_ffu_device_efi.Ffu.{WriteEntry, Store}
use ufp_ffu_device_efi.Ffu.Read.{read_location_mem}
use ufp_ffu_device_efi.Ffu.Front.{read_location_mem-front, ffu_parse_header_bytes-front}
use ufp_ffu_device_efi.Stream.{Media, StreamFlash, ffu_stream_flash_init}
use ufp_ffu_device_efi.Stream.Device.{Target, put_location, put_locations, put_in, put_entry, put}
use ufp_ffu_device_efi.Stream.Entries.{put_entries}

-- What a start comes to, with another header in the context.
abbrev pub with_header : {D : Type 0} → List ℕ → Outcome (StreamFlash D) → Outcome (StreamFlash D)
with_header header (ok ctx) = ok (record ctx { header = header })
with_header header (err st) = err st
with_header header stuck = stuck

with_header->>= :
    {A D : Type 0} (header : List ℕ) (m : Outcome A) (f : A → Outcome (StreamFlash D))
    → with_header header (m >>= f) ≡ (m >>= λ x. with_header header (f x))
with_header->>= header (ok x) f = refl
with_header->>= header (err st) f = refl
with_header->>= header stuck f = refl

module _ (buf bytes : List ℕ) (size : ℕ) (front : take size buf ≡ bytes) where
  -- The flasher starts on the buffer as on the header alone.
  pub ffu_stream_flash_init-front :
      {D : Type 0} (pool : ℕ → ℕ → Bool) (room : ℕ → Bool) (media : Media) (device : D)
      (commit : Bool)
      → ffu_stream_flash_init pool room (some buf) size (some media) device commit
        ≡ with_header buf
            (ffu_stream_flash_init pool room (some bytes) size (some media) device commit)
  unfolding ffu_stream_flash_init
  ffu_stream_flash_init-front pool room media device commit =
      simp (ffu_parse_header_bytes-front buf bytes size front pool, with_header->>=)

  module _ {D : Type 0} (write_blocks : D → ℕ → ℕ → List ℕ → ℕ × D) (t : Target)
      (sized : t.header_size ≡ size) where
    put_locations-front :
        (e : WriteEntry) (block_size : ℕ) (chunk : List ℕ) (count l : ℕ) (d : D)
        → put_locations write_blocks (record t { header = buf }) e block_size chunk count l d
          ≡ put_locations write_blocks (record t { header = bytes }) e block_size chunk count l d
    unfolding put_locations put_location put
    put_locations-front e block_size chunk zero l d = refl
    put_locations-front e block_size chunk (suc count) l d =
        let located : read_location_mem buf t.header_size e.descriptor_offset l
            ≡ read_location_mem bytes t.header_size e.descriptor_offset l =
          rw sized (read_location_mem-front buf bytes size front e.descriptor_offset l) in
        ap
          (λ loc.
            put_location write_blocks (record t { header = buf }) block_size chunk loc d
            &> put_locations write_blocks (record t { header = buf }) e block_size chunk count
                (l + 1))
          located
        ∙ &>-cong _ _ _ (λ c ran. put_locations-front e block_size chunk count (l + 1) c)

    put_in-front :
        (o : Option Store) (e : WriteEntry) (chunk : List ℕ) (d : D)
        → put_in write_blocks (record t { header = buf }) o e chunk d
          ≡ put_in write_blocks (record t { header = bytes }) o e chunk d
    put_in-front none e chunk d = refl
    put_in-front (some store) e chunk d =
        put_locations-front e store.block_size chunk e.location_count 0 d

    -- The entries are put on the device as with the header alone.
    pub put_entries-front :
        (es : List WriteEntry) (payload : List ℕ) (d : D)
        → put_entries write_blocks (record t { header = buf }) es payload d
          ≡ put_entries write_blocks (record t { header = bytes }) es payload d
    unfolding put_entry
    put_entries-front [] payload d = refl
    put_entries-front (e ∷ es) payload d =
        ap
          (λ r.
            r
            &> put_entries write_blocks (record t { header = buf }) es (drop e.byte_count payload))
          (put_in-front (get_elem? t.stores e.store_index) e (take e.byte_count payload) d)
        ∙ &>-cong _ _ _ (λ c ran. put_entries-front es (drop e.byte_count payload) c)
