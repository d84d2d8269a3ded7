-- ===== src/Actions/Install.antt =====
-- What internal/actions keeps on the disk and in docker: cache.go, node.go, fetch.go and docker.go.
use mirror_gha.Base.{
  leb, if◌then◌else◌, Text, lit, text_eq, Result, lower_byte, join_paths, join_path, ℕ, Bool, true,
  false, ◌&&◌, ◌||◌, [], ◌∷◌, ◌++◌, map, ok, err,
}
use mirror_gha.Os.{
  Os, Io, Command, command, completed, ◌>>=◌, ◌>>◌, give, raise, wrap, ignore_error, finally, lift,
  checked_combined,
}

-- `PinnedNodeVersion`
abbrev pub pinned_node_version : Text
pinned_node_version = lit "20.11.1"

abbrev is_alphanumeric : ℕ → Bool
is_alphanumeric c = leb b'a' c && leb c b'z' || leb b'A' c && leb c b'Z' || leb b'0' c && leb c b'9'

-- `dockerImageTagSanitizer.ReplaceAllString(s, "-")`: a run of other bytes becomes one dash. The
-- Boolean tells whether such a run goes on.
unfoldable pub sanitize_tag : Bool → Text → Text
sanitize_tag in_run [] = []
sanitize_tag in_run (c ∷ s) =
    let going_on = sanitize_tag true s in
    let ended = sanitize_tag false s in
    if is_alphanumeric c then c ∷ ended else if in_run then going_on else b'-' ∷ going_on

-- `imageTagFor`
unfoldable pub image_tag_for : Text → Result Text Text
unfolding sanitize_tag
image_tag_for [] = err (lit "actionRef must not be empty")
image_tag_for (c ∷ ref) =
    ok (lit "mirror-gha-" ++ map lower_byte (sanitize_tag false (c ∷ ref)) ++ lit ":latest")

-- `nodeArch`
unfoldable pub node_arch : Text → Result Text Text
unfolding text_eq
node_arch arch =
    if text_eq arch (lit "amd64")
    then ok (lit "x64")
    else if text_eq arch (lit "arm64")
    then ok (lit "arm64")
    else err (lit "unsupported architecture for the Node runtime: " ++ arch)

module _ {W : Type 0} (os : Os W) where
  -- `CacheRoot`
  unfoldable pub cache_root : Result Text Text
  unfolding join_paths
  cache_root = elim os.user_cache_dir [
    | err e ↦ err e
    | ok base ↦ ok (join_path base (lit "mirror-gha"))
  ]

  abbrev curl : (tmp url : Text) → Command
  curl tmp url = command (lit "curl") (lit "-fsSL" ∷ lit "-o" ∷ tmp ∷ url ∷ [])

  abbrev tar : (tmp dest : Text) → Command
  tar tmp dest =
      command (lit "tar") (lit "-xzf" ∷ tmp ∷ lit "-C" ∷ dest ∷ lit "--strip-components=1" ∷ [])

  -- What `FetchRemote` and `EnsureNode` do where the cache has no directory yet: the archive is
  -- downloaded and extracted, and its temporary file is removed on every path.
  unfoldable pub install : (pattern cache_dir url dest : Text) → Io W Text
  unfolding ◌>>=◌ give wrap checked_combined finally
  install pattern cache_dir url dest = do
    tmp ← wrap (lit "create temp file: ") (os.create_temp pattern)
    finally (ignore_error (os.remove tmp)) (do
      _ ← checked_combined os (lit "download " ++ url) (curl tmp url)
      wrap (lit "clear stale " ++ cache_dir ++ b' ' ∷ dest ++ lit ": ") (os.remove_all dest)
      wrap (lit "create " ++ cache_dir ++ b' ' ∷ dest ++ lit ": ") (os.make_dirs dest)
      _ ← checked_combined os (lit "extract " ++ tmp) (tar tmp dest)
      give dest)

  -- `FetchRemote`
  unfoldable pub fetch_remote : (owner repo ref root : Text) → Io W Text
  unfolding install join_paths
  fetch_remote owner repo ref root w =
      let dest = join_paths (root ∷ lit "actions" ∷ owner ∷ repo ∷ ref ∷ []) in
      let url =
        lit "https://codeload.github.com/" ++ owner ++ b'/' ∷ repo ++ lit "/tar.gz/" ++ ref in
      if os.exists (join_path dest (lit "action.yml")) w
        || os.exists (join_path dest (lit "action.yaml")) w
      then (ok dest, w)
      else install (lit "mirror-action-*.tar.gz") (lit "cache dir") url dest w

  abbrev node_url : (platform arch : Text) → Text
  node_url platform arch =
      lit "https://nodejs.org/dist/v"
      ++ pinned_node_version
      ++ lit "/node-v"
      ++ pinned_node_version
      ++ b'-' ∷ platform
      ++ b'-' ∷ arch
      ++ lit ".tar.gz"

  unfoldable pub install_node : (dest platform arch : Text) → Io W Text
  unfolding install join_paths
  install_node dest platform arch w =
      if os.exists (join_paths (dest ∷ lit "bin" ∷ lit "node" ∷ [])) w
      then (ok dest, w)
      else install (lit "mirror-node-*.tar.gz") (lit "node cache dir") (node_url platform arch) dest
          w

  -- `EnsureNode`
  unfoldable pub ensure_node : (root platform : Text) → Io W Text
  unfolding node_arch install_node lift raise ◌>>=◌ text_eq join_paths
  ensure_node root platform =
      if text_eq platform (lit "linux") || text_eq platform (lit "darwin")
      then (do
        arch ← lift (node_arch os.arch)
        install_node (join_paths (root ∷ lit "node" ∷ pinned_node_version ∷ platform ∷ arch ∷ []))
            platform arch)
      else raise (
          lit "unsupported Node runtime platform: "
          ++ os.quote platform
          ++ lit " (want \"linux\" or \"darwin\")")

  abbrev build_command : (dir dockerfile tag : Text) → Command
  build_command dir dockerfile tag =
      command (lit "docker") (lit "build" ∷ lit "-f" ∷ dockerfile ∷ lit "-t" ∷ tag ∷ dir ∷ [])

  -- `BuildActionImage`
  unfoldable pub build_action_image : (dir dockerfile action_ref : Text) → Io W Text
  unfolding image_tag_for lift checked_combined ◌>>=◌ give join_paths
  build_action_image dir dockerfile action_ref = do
    tag ← lift (image_tag_for action_ref)
    inspected ← λ w.
        let (r, w') = os.run (command (lit "docker") (lit "image" ∷ lit "inspect" ∷ tag ∷ [])) w in
        (ok r, w')
    elim inspected [
      | completed _ ↦ give tag
      | _ ↦
          checked_combined os (lit "docker build " ++ join_path dir dockerfile)
            (build_command dir (join_path dir dockerfile) tag)
          >>= λ _. give tag
    ]
