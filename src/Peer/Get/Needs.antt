-- ===== src/Peer/Get/Needs.antt =====
-- What a file of chunks, read by `parse_hasneed_list`, makes of the peer's lists.
use p2pdown_loader.Prelude.{
  ℕ, ◌+◌, ◌≡◌, refl, ap, List, [], ◌∷◌, some, true, false, arith, ltb, length, replicate,
  take-append, pos, ℤ,
}
use p2pdown_loader.Net.{Addr}
use p2pdown_loader.HashList.{Nodes, append_node, create_node, length_of_list}
use p2pdown_loader.HashList.Moves.{clear_hashchunk_list-length}
use p2pdown_loader.Chunk.{binary2hex}
use p2pdown_loader.Chunk.RoundTrip.{IsBytes, hex2binary-binary2hex, length-binary2hex}
use p2pdown_loader.Discovery.{DownloadConn}
use p2pdown_loader.Peer.Get.{
  both, Files, hash_text, add_chunk, add_line, is_comment, parse_lines, parse_hasneed_list,
  clear_lists, reset_mydownload,
}

-- A chunk as it stands in a file: its number and its hash.
abbrev pub Entry : Type 0
Entry = ℕ × List ℕ

-- The lines of a file: comments, and lines from which `sscanf` reads a number and a hash in
-- hexadecimal digits.
pub data IsFile (files : Files) : List (List ℕ) → List Entry → Type 0 where
  nil : IsFile files [] []
  comment :
      {text : List ℕ} {lines : List (List ℕ)} {es : List Entry}
      → IsFile files lines es
      → IsFile files ((35 ∷ text) ∷ lines) es
  entry :
      {line : List ℕ} {lines : List (List ℕ)} {es : List Entry} {n : ℕ} {hash : List ℕ}
      → is_comment line ≡ false
      → files.scan line ≡ both n (binary2hex hash)
      → length hash ≡ 20
      → IsBytes hash
      → IsFile files lines es
      → IsFile files (line ∷ lines) ((n, hash) ∷ es)

-- The entries of a list of nodes, and a list put in front of another one, last entry first.
abbrev pub entries : {F : Type 0} → Nodes F → List Entry
entries [] = []
entries (n ∷ list) = (n.chunkid, n.hash) ∷ entries list

abbrev pub onto : List Entry → List Entry → List Entry
onto [] ys = ys
onto (x ∷ xs) ys = onto xs (x ∷ ys)

hash_text-binary2hex :
    (hash : List ℕ) → length hash ≡ 20 → hash_text (binary2hex hash) ≡ some (binary2hex hash)
unfolding hash_text
hash_text-binary2hex hash e =
    let long : length (binary2hex hash) ≡ 40 = omega (arith, length-binary2hex hash) in
    let fits : ltb (length (binary2hex hash)) 50 ≡ true = ground (arith, long) in
    rw fits (ap some (take-append (binary2hex hash) (replicate 40 0) 40 long))

module _ {F : Type 0} (files : Files) (myaddr : Addr) where
  add_line-entry :
      (id chunkid n : ℕ) (hash : List ℕ) (list : Nodes F)
      → length hash ≡ 20
      → IsBytes hash
      → add_line files myaddr id chunkid (both n (binary2hex hash)) list
        ≡ some (n, create_node (files.malloc id) myaddr hash n ∷ list)
  unfolding add_line add_chunk append_node
  add_line-entry id chunkid n hash list e b =
      rw (hash_text-binary2hex hash e, hex2binary-binary2hex hash b) refl

  -- The nodes that the lines of a file make: each goes in front.
  parse_lines-entries :
      (id chunkid : ℕ) {lines : List (List ℕ)} {es : List Entry} (list : Nodes F)
      → IsFile files lines es
      → (list' : Nodes F) × (parse_lines files myaddr id chunkid lines list ≡ some list')
        × (entries list' ≡ onto es (entries list))
        × (length_of_list list' ≡ length es + length_of_list list)
  unfolding parse_lines create_node length_of_list
  parse_lines-entries id chunkid list nil = (list, refl, refl, omega arith)
  parse_lines-entries id chunkid list (IsFile.comment f) = parse_lines-entries id chunkid list f
  parse_lines-entries id chunkid list (IsFile.entry {n} {hash} code e size b f) =
      let (list', run, es, long) =
        parse_lines-entries (id + 1) n (create_node (files.malloc id) myaddr hash n ∷ list) f in
      (
        list',
        rw (code, parse_lines) (rw (e, add_line-entry id chunkid n hash list size b) run),
        es,
        omega (arith, long),
      )

  -- Whatever downloads were under way, `reset_mydownload` with a file of comments and of lines with
  -- a number and a hash returns: the peer then needs the chunks of the file, by their numbers and
  -- their hashes, the last line first, and counts them; it has found none, and asks for none.
  pub reset_mydownload-Needs :
      (chunkid : ℕ) (max_conn : ℤ) (lines : List (List ℕ)) (es : List Entry) (down : DownloadConn F)
      → IsFile files lines es
      → (need : Nodes F) × (reset_mydownload files myaddr chunkid max_conn (some lines) down
          ≡ some (record {
            concurr_download_num = pos 0;
            max_download_num = max_conn;
            howmany_found = pos 0;
            howmany_need = pos (length es);
            needlist = need;
            get_tosend_quene = [];
            get_sent_list = [];
            downloading_list = [];
          }))
        × (entries need ≡ onto es [])
  unfolding reset_mydownload clear_lists parse_hasneed_list length_of_list
  reset_mydownload-Needs chunkid max_conn lines es down f =
      let (need, run, same, long) = parse_lines-entries 0 chunkid [] f in
      let counted : length_of_list need ≡ length es = omega (arith, long) in
      (
        need,
        rw
            (
              clear_hashchunk_list-length down.needlist,
              clear_hashchunk_list-length down.get_tosend_quene,
              clear_hashchunk_list-length down.get_sent_list,
              clear_hashchunk_list-length down.downloading_list,
              run,
              counted,
            )
            refl,
        same,
      )
