-- ===== src/Menu/Consistent.antt =====
-- What the connection menu shows is what its search field asks for.
use rowake.Prelude.{
  ℕ, zero, suc, ◌-◌, sym, Text, lit, ◌≡◌, refl, ap, ◌∙◌, either_branch, Bool, true, false, not,
  Option, none, some, List, [], ◌∷◌, map, nat_eq, is_empty, length, length-map, All,
}
use rowake.Data.{Connection}
use rowake.Menu.{
  Item, Focus, elsewhere, trigger, search, clear, option, Menu, shown_items, is_any, counted,
  connection_picker, item_of, needle_of, matches, marked, summary_of, filter_options, focus_search,
  close_menu, toggle_menu,
}
use rowake.Menu.Events.{
  Key, typed, enter, arrow_down, arrow_up, Event, leave, press_button, press_clear, frame,
  press_option, input, press, shown_places, next_index, index_of, focus_place, run_frames,
  key_on_trigger, key_on_search, key_on_option, key_on, key_down, moved, choose, handle, handle_all,
}

abbrev pub value_of : Item → Text
value_of item = item.value

abbrev pub connection_id : Connection → Text
connection_id c = c.id

module _ (lower : Text → Text) (values : List Text) where
  -- An option is hidden exactly if it does not match.
  abbrev IsMarked : Text → Item → Type 0
  IsMarked needle item = item.hidden ≡ not (matches lower needle item)

  abbrev pub IsConsistent : Menu → Type 0
  IsConsistent m =
      (m.expanded ≡ not m.hidden)
      × (map value_of m.items ≡ values)
      × All (IsMarked (needle_of lower m.search)) m.items
      × (m.summary ≡ summary_of lower (needle_of lower m.search) m.items)
      × (m.empty_hidden ≡ is_any (shown_items m.items))
      × (m.clear_hidden ≡ is_empty (needle_of lower m.search))

  marked-IsMarked :
      (needle : Text) (items : List Item) → All (IsMarked needle) (map (marked lower needle) items)
  unfolding matches
  marked-IsMarked needle [] = tt
  marked-IsMarked needle (item ∷ items) = (refl, marked-IsMarked needle items)

  value_of-marked :
      (needle : Text) (items : List Item)
      → map value_of (map (marked lower needle) items) ≡ map value_of items
  value_of-marked needle [] = refl
  value_of-marked needle (item ∷ items) = ap (item.value ∷◌) (value_of-marked needle items)

  -- The search makes a menu consistent whose options and state are right.
  filter_options-IsConsistent :
      (m : Menu)
      → m.expanded ≡ not m.hidden
      → map value_of m.items ≡ values
      → IsConsistent (filter_options lower m.search m)
  unfolding filter_options
  filter_options-IsConsistent m o v = (
    o,
    value_of-marked (needle_of lower m.search) m.items ∙ v,
    marked-IsMarked (needle_of lower m.search) m.items,
    refl,
    refl,
    refl,
  )

  close_menu-IsConsistent : (b : Bool) (m : Menu) → IsConsistent m → IsConsistent (close_menu b m)
  unfolding close_menu
  close_menu-IsConsistent b m c =
      either_branch IsConsistent m.hidden _ _ c (refl, c.1, c.2, c.3, c.4, c.5)

  focus_search-IsConsistent :
      (t : Text) (m : Menu) → IsConsistent m → IsConsistent (focus_search lower t m)
  unfolding focus_search
  focus_search-IsConsistent t m c = filter_options-IsConsistent (record m { search = t }) c.0 c.1

  toggle_menu-IsConsistent :
      (o : Option Bool) (b : Bool) (m : Menu)
      → IsConsistent m
      → IsConsistent (toggle_menu lower o b m)
  unfolding toggle_menu
  toggle_menu-IsConsistent o b m c =
      let d = close_menu-IsConsistent false m c in
      let shown : Menu = record (close_menu false m) { hidden = false; expanded = true } in
      let e : IsConsistent shown = (refl, d.1, d.2, d.3, d.4, d.5) in
      either_branch IsConsistent _ _ _ d
        (either_branch IsConsistent b _ _ (focus_search-IsConsistent [] shown e) e)

  focus_place-IsConsistent :
      (places : List ℕ) (i : ℕ) (m : Menu) → IsConsistent m → IsConsistent (focus_place places i m)
  unfolding focus_place
  focus_place-IsConsistent [] i m c = c
  focus_place-IsConsistent (p ∷ places) zero m c = c
  focus_place-IsConsistent (p ∷ places) (suc i) m c = focus_place-IsConsistent places i m c

  moved-IsConsistent :
      (next : Option ℕ) (places : List ℕ) (m : Menu)
      → IsConsistent m
      → IsConsistent (moved lower next places m)
  moved-IsConsistent none places m c = c
  moved-IsConsistent (some i) places m c = focus_place-IsConsistent places i m c

  run_frames-IsConsistent :
      (fs : List Focus) (m : Menu) → IsConsistent m → IsConsistent (run_frames fs m)
  unfolding run_frames
  run_frames-IsConsistent [] m c = c
  run_frames-IsConsistent (f ∷ fs) m c = run_frames-IsConsistent fs (record m { focus = f }) c

  key_on_trigger-IsConsistent :
      (k : Key) (m : Menu) → IsConsistent m → IsConsistent (key_on_trigger lower k m).0
  unfolding key_on_trigger
  key_on_trigger-IsConsistent (typed c modified) m ok =
      let P : Menu × Option Text → Type 0 = λ r. IsConsistent r.0 in
      either_branch P (nat_eq c 32) _ _ ok (
        either_branch P modified _ _ ok (
          focus_search-IsConsistent (c ∷ []) (toggle_menu lower (some true) false m)
            (toggle_menu-IsConsistent (some true) false m ok)))
  key_on_trigger-IsConsistent arrow_down m ok = toggle_menu-IsConsistent (some true) false m ok
  key_on_trigger-IsConsistent arrow_up m ok = toggle_menu-IsConsistent (some true) false m ok
  key_on_trigger-IsConsistent k m ok = ok

  key_on_search-IsConsistent :
      (k : Key) (places : List ℕ) (m : Menu)
      → IsConsistent m
      → IsConsistent (key_on_search lower k places m).0
  unfolding key_on_search choose
  key_on_search-IsConsistent k [] m c = c
  key_on_search-IsConsistent arrow_down (p ∷ ps) m c = focus_place-IsConsistent (p ∷ ps) 0 m c
  key_on_search-IsConsistent arrow_up (p ∷ ps) m c =
      focus_place-IsConsistent (p ∷ ps) (length (p ∷ ps) - 1) m c
  key_on_search-IsConsistent enter (p ∷ ps) m c = close_menu-IsConsistent false m c
  key_on_search-IsConsistent k (p ∷ ps) m c = c

  key_on_option-IsConsistent :
      (k : Key) (place : ℕ) (m : Menu)
      → IsConsistent m
      → IsConsistent (key_on_option lower k place m)
  unfolding key_on_option
  key_on_option-IsConsistent k place m c = either_branch IsConsistent _ _ _ c (
      moved-IsConsistent
        (next_index k (length (shown_places 0 m.items)) (index_of place (shown_places 0 m.items)))
        (shown_places 0 m.items) m c)

  key_on-IsConsistent :
      (target : Focus) (k : Key) (m : Menu)
      → IsConsistent m
      → IsConsistent (key_on lower target k m).0
  unfolding key_on
  key_on-IsConsistent elsewhere k m c = c
  key_on-IsConsistent clear k m c = c
  key_on-IsConsistent trigger k m c = key_on_trigger-IsConsistent k m c
  key_on-IsConsistent search k m c = key_on_search-IsConsistent k (shown_places 0 m.items) m c
  key_on-IsConsistent (option i) k m c = key_on_option-IsConsistent k i m c

  key_down-IsConsistent :
      (target : Focus) (k : Key) (m : Menu)
      → IsConsistent m
      → IsConsistent (key_down lower target k m).0
  unfolding key_down
  key_down-IsConsistent elsewhere k m c = c
  key_down-IsConsistent target k m c =
      either_branch (λ (r : Menu × Option Text). IsConsistent r.0) _ _ _
        (close_menu-IsConsistent true m c) (key_on-IsConsistent target k m c)

  handle-IsConsistent : (e : Event) (m : Menu) → IsConsistent m → IsConsistent (handle lower e m).0
  unfolding handle choose
  handle-IsConsistent leave m c = close_menu-IsConsistent false m c
  handle-IsConsistent press_button m c = toggle_menu-IsConsistent none true m c
  handle-IsConsistent press_clear m c =
      filter_options-IsConsistent (record m { search = [] }) c.0 c.1
  handle-IsConsistent frame m c =
      run_frames-IsConsistent m.focus_next (record m { focus_next = [] }) c
  handle-IsConsistent (press_option i) m c = close_menu-IsConsistent false m c
  handle-IsConsistent (input t) m c = filter_options-IsConsistent (record m { search = t }) c.0 c.1
  handle-IsConsistent (press target k) m c = key_down-IsConsistent target k m c

  handle_from-IsConsistent :
      (es : List Event) (m : Menu) → IsConsistent m → IsConsistent (handle_all lower es m)
  unfolding handle_all
  handle_from-IsConsistent [] m c = c
  handle_from-IsConsistent (e ∷ es) m c =
      handle_from-IsConsistent es (handle lower e m).0 (handle-IsConsistent e m c)

module _ (lower : Text → Text) (lower_nil : lower [] ≡ []) where
  item_of-IsMarked :
      (id : Text) (cs : List Connection)
      → All (IsMarked lower (map connection_id cs) (needle_of lower [])) (map (item_of lower id) cs)
  unfolding needle_of item_of matches
  item_of-IsMarked id [] = tt
  item_of-IsMarked id (c ∷ cs) = (rw lower_nil, item_of-IsMarked id cs)

  value_of-item_of :
      (id : Text) (cs : List Connection)
      → map value_of (map (item_of lower id) cs) ≡ map connection_id cs
  unfolding item_of
  value_of-item_of id [] = refl
  value_of-item_of id (c ∷ cs) = ap (c.id ∷◌) (value_of-item_of id cs)

  -- Whatever happens to the menu of at least one connection, it is announced as expanded exactly
  -- while it is open, it has the options of all connections in their order, and hidden are exactly
  -- those that do not match the text in the search field; the summary counts the options that are
  -- shown, or all if there is no search, the notice of an empty result is hidden exactly if an
  -- option is shown, and the button that clears the search is hidden exactly if there is none. The
  -- platform's lower case of the empty text is taken to be empty.
  pub handle_all-IsConsistent :
      (id : Text) (c : Connection) (cs : List Connection) (es : List Event)
      → IsConsistent lower
          (map connection_id (c ∷ cs))
          (handle_all lower es (connection_picker lower id (c ∷ cs)))
  unfolding connection_picker needle_of summary_of item_of
  handle_all-IsConsistent id c cs es =
      handle_from-IsConsistent lower (map connection_id (c ∷ cs)) es
        (connection_picker lower id (c ∷ cs))
        (
          refl,
          value_of-item_of id (c ∷ cs),
          item_of-IsMarked id (c ∷ cs),
          rw lower_nil (ap (counted (lit "option")) (sym (length-map (item_of lower id) (c ∷ cs)))),
          refl,
          rw lower_nil refl,
        )
